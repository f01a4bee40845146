-- ===== src/Chainstate/Ops.antt =====
-- The operations of class Chainstate in src/chainstate.cpp.
use xayax.Prelude.{
  ℕ, ◌+◌, String, Bool, ◌&&◌, List, [], ◌∷◌, ◌++◌, Option, none, some, ltb, leb, ◌==◌,
  if◌then◌else◌, select, last?, ℤ, pos, minus_one,
}
use xayax.Prelude.Checked.{◌>>=◌, ◌>>◌, check}
use xayax.BlockData.{BlockData, Codec}
use xayax.Chainstate.Table.{
  Row, has_hash, on_branch, highest, lowest, highest_branch, set_branch, delete, only, constrained,
  bindable,
}
use xayax.Chainstate.Fork.{get_fork_branch}

abbrev height_of : Option Row → ℤ
height_of none = minus_one
height_of (some r) = pos r.height

unfoldable pub get_tip_height : List Row → ℤ
unfolding highest
get_tip_height rs = height_of (highest (select (on_branch 0) rs))

unfoldable pub get_lowest_unpruned_height : List Row → ℤ
unfolding lowest
get_lowest_unpruned_height rs = height_of (lowest (select (on_branch 0) rs))

-- `some none` is the result false.
unfoldable pub get_hash_for_height : List Row → ℕ → Option (Option String)
get_hash_for_height rs height = do
  check (bindable height)
  row ← only (select (λ r. on_branch 0 r && r.height == height) rs)
  elim row [ none ↦ some none | some r ↦ some (some r.hash) ]

unfoldable pub get_height_for_hash : List Row → String → Option (Option ℕ)
get_height_for_hash rs hash = do
  row ← only (select (has_hash hash) rs)
  elim row [ none ↦ some none | some r ↦ some (some r.height) ]

unfoldable pub get_free_branch_number : List Row → ℕ
unfolding highest_branch
get_free_branch_number rs = elim (highest_branch rs) [ none ↦ 1 | some b ↦ b + 1 ]

-- DELETE FROM `blocks` WHERE `branch` = 0 AND `height` <= ?1
unfoldable pub prune_rows : ℕ → List Row → Option (List Row)
prune_rows until_height rs = do
  check (bindable until_height)
  some (delete (λ r. on_branch 0 r && leb r.height until_height) rs)

-- UPDATE `blocks` SET `branch` = ?1 WHERE `branch` = 0 AND ..., with a free branch number: these blocks
-- of the main chain go to a new branch.
unfoldable pub detach_where : (Row → Bool) → List Row → Option (List Row)
unfolding constrained set_branch get_free_branch_number
detach_where p rs = do
  check (bindable (get_free_branch_number rs))
  constrained (set_branch (get_free_branch_number rs) (λ r. on_branch 0 r && p r) rs)

module _ {Json : Type 0} (codec : Codec Json) where
  abbrev pub row_of : BlockData Json → ℕ → Row
  row_of blk branch = record {
    hash = blk.hash;
    parent = blk.parent;
    height = blk.height;
    branch = branch;
    blob = codec.serialise blk;
  }

  unfoldable pub insert_block : BlockData Json → ℕ → List Row → Option (List Row)
  unfolding constrained
  insert_block blk branch rs = do
    check (bindable blk.height)
    check (bindable branch)
    constrained (rs ++ row_of blk branch ∷ [])

  -- UPDATE `blocks` SET `branch` = 0 WHERE `hash` = ?1, for each block of the branch
  unfoldable pub adopt_all : List (BlockData Json) → List Row → Option (List Row)
  unfolding constrained set_branch
  adopt_all [] rs = some rs
  adopt_all (d ∷ ds) rs = do rs' ← constrained (set_branch 0 (has_hash d.hash) rs); adopt_all ds rs'

  unfoldable pub mark_as_tip : BlockData Json → List Row → Option (List Row)
  unfolding detach_where adopt_all get_fork_branch
  mark_as_tip blk rs = do
    row ← only (select (has_hash blk.hash) rs)
    elim row [
      | none ↦ none
      | some r ↦
          if r.branch == 0
          then (check (bindable blk.height) >> detach_where (λ q. ltb blk.height q.height) rs)
          else do
            found ← get_fork_branch codec rs blk.hash
            branch ← found
            last ← last? branch
            check (bindable last.height)
            rs' ← detach_where (λ q. leb last.height q.height) rs
            adopt_all branch rs'
    ]
