-- ===== src/Chainstate/Sanity.antt =====
-- Chainstate::SanityCheck of src/chainstate.cpp. `none` is a failed CHECK.
use xayax.Prelude.{
  ℕ, ◌+◌, Bool, true, false, not, List, [], ◌∷◌, Option, none, some, leb, ◌==◌, if◌then◌else◌,
  select, length, ◌%◌, ◌^◌, ◌||◌, ℤ, pos, negsuc,
}
use xayax.Prelude.Texts.{same}
use xayax.Prelude.Checked.{◌>>=◌, ◌>>◌, check}
use xayax.BlockData.{Codec}
use xayax.Chainstate.Table.{Row, has_hash, on_branch, order_desc, only}
use xayax.Chainstate.Fork.{decode}
use xayax.Chainstate.Ops.{get_lowest_unpruned_height}

abbrev pub occurs : ℕ → List ℕ → Bool
occurs b [] = false
occurs b (c ∷ cs) = b == c || occurs b cs

-- SELECT DISTINCT `branch`
unfoldable pub distinct_branches : List Row → List ℕ
distinct_branches [] = []
distinct_branches (r ∷ rs) =
    let rest = distinct_branches rs in if occurs r.branch rest then rest else r.branch ∷ rest

-- CHECK_LE (lastHeight, GetLowestUnprunedHeight ())
abbrev is_pruned_height : ℕ → ℤ → Bool
is_pruned_height h (pos l) = leb h l
is_pruned_height h (negsuc l) = false

module _ {Json : Type 0} (codec : Codec Json) (rs : List Row) where
  -- The end of a branch, whose lowest block is `last`.
  unfoldable pub check_end : ℕ → Row → Option (Unit {0})
  unfolding get_lowest_unpruned_height
  check_end branch last = do
    found ← only (select (has_hash last.parent) rs)
    elim found [
      | none ↦ check (is_pruned_height last.height (get_lowest_unpruned_height rs))
      | some p ↦ do check (not (p.branch == branch)); check (p.height + 1 == last.height)
    ]

  -- The loop down a branch, below `last`.
  unfoldable pub walk_down : ℕ → Row → List Row → Option (Unit {0})
  unfolding check_end decode
  walk_down branch last [] = check_end branch last
  walk_down branch last (r ∷ rest) = do
    blk ← decode codec r
    check (r.height + 1 == last.height)
    check (same r.hash last.parent)
    walk_down branch r rest

  -- A branch of the table has at least one row.
  unfoldable pub check_branch : ℕ → List Row → Option (Unit {0})
  unfolding walk_down
  check_branch branch [] = none
  check_branch branch (r ∷ rest) = do blk ← decode codec r; walk_down branch r rest

  -- The loop over the branches, with whether the main branch has been seen.
  unfoldable pub check_branches : Bool → List ℕ → Option Bool
  unfolding check_branch order_desc
  check_branches found_main [] = some found_main
  check_branches found_main (b ∷ bs) = elim (b == 0) [
    | true ↦ check_branches true bs
    | false ↦ check_branch b (order_desc (select (on_branch b) rs)) >> check_branches found_main bs
  ]

  -- numBlocks is COUNT(*) as an unsigned.
  unfoldable pub sanity_check : Option (Unit {0})
  unfolding check_branches distinct_branches
  sanity_check =
      if length rs % 2 ^ 32 == 0
      then some tt
      else (do found_main ← check_branches false (distinct_branches rs); check found_main)
