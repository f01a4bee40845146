-- ===== src/Chainstate/Fork.antt =====
-- Chainstate::GetForkBranch of src/chainstate.cpp, on the rows of the table. `none` is a failed CHECK.
use xayax.Prelude.{
  ℕ, zero, suc, ◌+◌, String, true, false, ◌&&◌, List, [], ◌∷◌, ◌++◌, Option, none, some, leb, ◌==◌,
  select, last?, max,
}
use xayax.Prelude.Texts.{same}
use xayax.Prelude.Checked.{◌>>=◌, ◌>>◌, check}
use xayax.BlockData.{BlockData, Codec}
use xayax.Chainstate.Table.{Row, has_hash, on_branch, order_desc, only}

-- SELECT ... WHERE `branch` = ?1 AND `height` <= ?2 ORDER BY `height` DESC
unfoldable pub branch_below : ℕ → ℕ → List Row → List Row
unfolding order_desc
branch_below b h rs = order_desc (select (λ q. on_branch b q && leb q.height h) rs)

-- The greatest height in the table: a bound for the rounds of the loop.
unfoldable pub top : List Row → ℕ
top [] = 0
top (r ∷ rs) = max r.height (top rs)

module _ {Json : Type 0} (codec : Codec Json) where
  -- BlockData::Deserialise of the blob, and the CHECKs against the row's columns.
  unfoldable pub decode : Row → Option (BlockData Json)
  decode r = do
    blk ← codec.deserialise r.blob
    check (same blk.hash r.hash)
    check (same blk.parent r.parent)
    check (blk.height == r.height)
    some blk

  unfoldable pub decode_all : List Row → Option (List (BlockData Json))
  unfolding decode
  decode_all [] = some []
  decode_all (r ∷ rs) = do blk ← decode r; rest ← decode_all rs; some (blk ∷ rest)

  -- What the loop returns at an unknown hash: !branch.empty ().
  abbrev pub found_some : List (BlockData Json) → Option (List (BlockData Json))
  found_some [] = none
  found_some (b ∷ bs) = some (b ∷ bs)

  module _ (rs : List Row) where
    -- The loop from `cur_hash`, with what it has put into `branch` so far.
    unfoldable pub fork_from :
        ℕ → String → List (BlockData Json) → Option (Option (List (BlockData Json)))
    unfolding branch_below decode_all
    fork_from zero cur_hash branch = none
    fork_from (suc fuel) cur_hash branch = do
      row ← only (select (has_hash cur_hash) rs)
      elim row [
        | none ↦ some (found_some branch)
        | some r ↦ elim (r.branch == 0) [
          | true ↦ some (some branch)
          | false ↦ do
            part ← decode_all (branch_below r.branch r.height rs)
            last ← last? (branch ++ part)
            fork_from fuel last.parent (branch ++ part)
        ]
      ]

    -- `some none` is the result false, for a hash that is not known.
    unfoldable pub get_fork_branch : String → Option (Option (List (BlockData Json)))
    unfolding fork_from top
    get_fork_branch hash = fork_from (top rs + 2) hash []
