-- ===== src/Chainstate/Methods.antt =====
-- class Chainstate and class Chainstate::UpdateBatch of src/chainstate.cpp: the database as a state.
use xayax.Prelude.{
  ℕ, ◌+◌, ◌-◌, String, Bool, true, false, List, [], ◌∷◌, Option, none, some, ltb, ◌==◌,
  if◌then◌else◌, select, ℤ, pos, negsuc,
}
use xayax.Prelude.Texts.{same}
use xayax.Prelude.Action.{Action, done, threw, aborted, ◌>>=◌, ◌>>◌, get, pure, check, checked}
use xayax.BlockData.{BlockData, Codec}
use xayax.Chainstate.Table.{Row, has_hash, on_branch, highest, only}
use xayax.Chainstate.Ops.{
  get_tip_height, get_lowest_unpruned_height, get_height_for_hash, get_free_branch_number,
  insert_block, mark_as_tip, prune_rows,
}

-- The tables `blocks` and `variables` (of which only the row 'chain' is used), with what the open
-- savepoints go back to, the innermost first.
pub record Contents : Type 0 where
  pub blocks : List Row
  pub chain : Option String

pub record Chainstate : Type 0 where
  pub contents : Contents
  pub open contents use *
  pub savepoints : List Contents

abbrev pub empty : Chainstate
empty = record { contents = record { blocks = []; chain = none }; savepoints = [] }

-- SAVEPOINT `update-batch`
unfoldable pub savepoint : Chainstate → Chainstate
savepoint c = record c { savepoints = c.contents ∷ c.savepoints }

unfoldable pub back_to : List Contents → Chainstate → Chainstate
back_to [] c = c
back_to (p ∷ ps) c = record c { contents = p }

-- ROLLBACK TO `update-batch`
unfoldable pub rollback : Chainstate → Chainstate
unfolding back_to
rollback c = back_to c.savepoints c

abbrev pub behind_first : List Contents → List Contents
behind_first [] = []
behind_first (p ∷ ps) = ps

-- RELEASE `update-batch`
unfoldable pub release : Chainstate → Chainstate
release c = record c { savepoints = behind_first c.savepoints }

-- A scope that holds an UpdateBatch: the last statement commits it, and an exception that leaves the
-- scope before runs its destructor.
unfoldable pub with_batch : {A : Type 0} → Action Chainstate A → Action Chainstate A
unfolding savepoint rollback release
with_batch body c = elim (body (savepoint c)) [
  | done a c' ↦ done a (release c')
  | threw c' ↦ threw (release (rollback c'))
  | aborted ↦ aborted
]

abbrev pub on_blocks : (List Row → Option (List Row)) → Action Chainstate (Unit {0})
on_blocks f c = elim (f c.blocks) [
  | none ↦ aborted
  | some rs ↦ done tt (record c { contents = record c.contents { blocks = rs } })
]

unfoldable pub set_chain : String → Action Chainstate (Unit {0})
set_chain chain c = elim c.chain [
  | some old ↦ check (same chain old) c
  | none ↦ done tt (record c { contents = record c.contents { chain = some chain } })
]

unfoldable pub prune : ℕ → Action Chainstate (Unit {0})
unfolding with_batch prune_rows
prune until_height = with_batch (on_blocks (prune_rows until_height))

-- CHECK_EQ of a signed height with an unsigned one.
abbrev pub is_height : ℤ → ℕ → Bool
is_height (pos h) k = h == k
is_height (negsuc h) k = false

-- The first CHECK of ImportTip: there is no tip, or it is lower.
abbrev pub below_height : ℤ → ℕ → Bool
below_height (pos h) k = ltb h k
below_height (negsuc h) k = true

module _ {Json : Type 0} (codec : Codec Json) where
  unfoldable pub import_tip : BlockData Json → Action Chainstate (Unit {0})
  unfolding with_batch prune insert_block mark_as_tip get_tip_height get_lowest_unpruned_height
  import_tip tip = do
    c ← get
    check (below_height (get_tip_height c.blocks) tip.height)
    with_batch (do
      known ← checked (get_height_for_hash c.blocks tip.hash)
      elim known [
        | some _ ↦ on_blocks (mark_as_tip codec tip)
        | none ↦ on_blocks (insert_block codec tip 0)
      ]
      if ltb 0 tip.height then prune (tip.height - 1) else pure tt)
    c' ← get
    check (is_height (get_lowest_unpruned_height c'.blocks) tip.height)
    check (is_height (get_tip_height c'.blocks) tip.height)

  -- The result, and what `oldTip` holds afterwards; the callers pass an empty string.
  unfoldable pub set_tip : BlockData Json → Action Chainstate (Bool × String)
  unfolding with_batch highest insert_block mark_as_tip get_free_branch_number
  set_tip blk = do
    c ← get
    elim (highest (select (on_branch 0) c.blocks)) [
      | none ↦ pure (false, "")
      | some old ↦ do
        known ← checked (only (select (has_hash blk.hash) c.blocks))
        elim known [
          | some r ↦ do
            check (same blk.parent r.parent)
            check (blk.height == r.height)
            with_batch (on_blocks (mark_as_tip codec blk))
            pure (true, old.hash)
          | none ↦ do
            parent ← checked (only (select (has_hash blk.parent) c.blocks))
            elim parent [
              | none ↦ pure (false, old.hash)
              | some p ↦ do
                check (blk.height == p.height + 1)
                with_batch (do
                  on_blocks (insert_block codec blk (get_free_branch_number c.blocks))
                  on_blocks (mark_as_tip codec blk))
                pure (true, old.hash)
            ]
        ]
    ]
