-- ===== src/Tests/Chain.antt =====
-- Instances for the chainstate.
use text.Mathlib.TextEquality.{eq_iff}
use xayax.Prelude.{
  true, ◌≡◌, ◌≢◌, ◌⊎◌, inl, inr, refl, arith, ◌↔◌, ◌<◌, pos, i64_bound, String, List, [], ◌∷◌, ◌++◌,
  none, some,
}
use xayax.Prelude.Texts.{str_discrete}
use xayax.BlockData.{BlockData}
use xayax.Chainstate.Table.{Row, constraints_hold}
use xayax.Chainstate.Fork.{decode, get_fork_branch}
use xayax.Chainstate.Members.{In}
use xayax.Chainstate.Tree.{IsTree}
use xayax.Chainstate.Segments.{PathTo}
use xayax.Chainstate.Forking.{get_fork_branch-PathTo}
use xayax.Chainstate.Ops.{row_of, mark_as_tip, get_free_branch_number, get_tip_height}
use xayax.Chainstate.Methods.{Chainstate, prune, set_tip, import_tip, with_batch, on_blocks}
use xayax.Chainstate.Importing.{import_tip-IsTree}
use xayax.Chainstate.Pruning.{Stays, prune-IsTree}
use xayax.Chainstate.Rewinding.{mark_as_tip-IsTree, set_tip-IsTree}
use xayax.Chainstate.Switching.{mark_as_tip_switches-IsTree}
use xayax.Chainstate.Extending.{set_tip_new-IsTree}
use xayax.Chainstate.Paths.{is_among}
use xayax.Chainstate.Sanity.{sanity_check}
use xayax.Chainstate.Checking.{sanity_check-passes}
use xayax.Chainstate.Reverting.{with_batch-reverts}
use xayax.Prelude.Action.{Action, Post, done, throw, ◌>>◌}
use xayax.Chainstate.Table.{highest_branch}
use xayax.Tests.Fixtures.{Js, genesis, fork, by_hash}

-- The genesis block on the main chain, and a block on a branch.
abbrev table : List Row
table = row_of by_hash genesis 0 ∷ row_of by_hash fork 1 ∷ []

texts_differ :
    (◌≢◌ {A = String} "genesis" "fork")
    × (◌≢◌ {A = String} "genesis" "nothing")
    × (◌≢◌ {A = String} "fork" "nothing")
texts_differ = (
  ground (arith, eq_iff "genesis" "fork"),
  ground (arith, eq_iff "genesis" "nothing"),
  ground (arith, eq_iff "fork" "nothing"),
)

table_stored : (r : Row) → In r table → (blk : BlockData Js) × (decode by_hash r ≡ some blk)
unfolding decode
table_stored r (inl e) = (genesis, ground (arith, texts_differ))
table_stored r (inr (inl e)) = (fork, ground (arith, texts_differ))
table_stored r (inr (inr i)) = elim i [ ]

table-IsTree : IsTree by_hash table
unfolding constraints_hold
table-IsTree = record {
  keys = ground (arith, texts_differ);
  stored = table_stored;
  heights = λ r p i j e. ground (arith, texts_differ);
  linked = λ r q i j e l. absurd (ground (arith, texts_differ));
  pruned = λ r q i j n u e. ground (arith, texts_differ, u (row_of by_hash genesis 0));
}

get_fork_branch-PathTo_example :
    ((bs : List (BlockData Js)) × PathTo by_hash table table-IsTree "fork" bs
      × (get_fork_branch by_hash table "fork" ≡ some (some bs)))
    ⊎ (((p : Row) → In p table → p.hash ≢ "fork")
        × (get_fork_branch by_hash table "fork" ≡ some none))
get_fork_branch-PathTo_example = get_fork_branch-PathTo by_hash table table-IsTree "fork"

get_fork_branch_of_fork : get_fork_branch by_hash table "fork" ≡ some (some (fork ∷ []))
unfolding get_fork_branch str_discrete
get_fork_branch_of_fork = refl

abbrev stored : Chainstate
stored = record { contents = record { blocks = table; chain = none }; savepoints = [] }

prune-IsTree_example :
    (c' : Chainstate) × (prune 0 stored ≡ done tt c')
    × IsTree by_hash c'.blocks
    × ((r : Row) → In r c'.blocks ↔ (In r table × Stays 0 r))
    × (c'.chain ≡ none)
    × (c'.savepoints ≡ [])
prune-IsTree_example = prune-IsTree by_hash 0 stored (omega arith) table-IsTree

table_free : get_free_branch_number table < i64_bound
unfolding get_free_branch_number highest_branch
table_free = omega arith

mark_as_tip-IsTree_example :
    (rs' : List Row) × (mark_as_tip by_hash genesis table ≡ some rs')
    × IsTree by_hash rs'
    × In (row_of by_hash genesis 0) rs'
    × (get_tip_height rs' ≡ pos 0)
mark_as_tip-IsTree_example =
    mark_as_tip-IsTree by_hash table table-IsTree genesis (row_of by_hash genesis 0) (inl refl) refl
      refl refl (omega arith) table_free

set_tip-IsTree_example :
    (old : Row) × (c' : Chainstate) × (set_tip by_hash genesis stored ≡ done (true, old.hash) c')
    × In old table
    × (old.branch ≡ 0)
    × (get_tip_height table ≡ pos old.height)
    × IsTree by_hash c'.blocks
    × In (row_of by_hash genesis 0) c'.blocks
    × (get_tip_height c'.blocks ≡ pos 0)
set_tip-IsTree_example =
    set_tip-IsTree by_hash stored table-IsTree genesis (row_of by_hash genesis 0) (inl refl) refl
      refl refl refl (omega arith) table_free

abbrev fork_row : Row
fork_row = row_of by_hash fork 1

abbrev genesis_row : Row
genesis_row = row_of by_hash genesis 0

mark_as_tip_switches-IsTree_example :
    (rs' : List Row) × (mark_as_tip by_hash fork table ≡ some rs')
    × IsTree by_hash rs'
    × (get_tip_height rs' ≡ pos 1)
    × ((q : Row)
        → In q table
        → (q' : Row) × In q' rs'
          × (q'.hash ≡ q.hash)
          × ((q'.branch ≡ 0)
              ↔ ((is_among (fork ∷ []) q ≡ true) ⊎ ((q.branch ≡ 0) × (q.height < 1)))))
mark_as_tip_switches-IsTree_example =
    mark_as_tip_switches-IsTree by_hash table table-IsTree fork fork_row (fork ∷ []) fork
      genesis_row (inr (inl refl)) refl (ground arith) get_fork_branch_of_fork refl (inl refl) refl
      refl (omega arith) table_free

-- The genesis block alone.
abbrev first_table : List Row
first_table = genesis_row ∷ []

first_table-IsTree : IsTree by_hash first_table
unfolding constraints_hold
first_table-IsTree = record {
  keys = refl;
  stored = λ r i. table_stored r (ground (arith, i));
  heights = λ r p i j e. ground (arith, texts_differ);
  linked = λ r q i j e l. absurd (ground arith);
  pruned = λ r q i j n u e. ground arith;
}

abbrev first_stored : Chainstate
first_stored = record { contents = record { blocks = first_table; chain = none }; savepoints = [] }

free_is_one : get_free_branch_number first_table ≡ 1
unfolding get_free_branch_number highest_branch
free_is_one = refl

get_fork_branch_of_new :
    get_fork_branch by_hash
      (first_table ++ row_of by_hash fork (get_free_branch_number first_table) ∷ [])
      "fork"
    ≡ some (some (fork ∷ []))
get_fork_branch_of_new = rw free_is_one get_fork_branch_of_fork

free_fits :
    get_free_branch_number
      (first_table ++ row_of by_hash fork (get_free_branch_number first_table) ∷ [])
    < i64_bound
free_fits = rw free_is_one table_free

by_hash_reads : by_hash.deserialise (by_hash.serialise fork) ≡ some fork
by_hash_reads = ground (arith, texts_differ)

set_tip_new-IsTree_example :
    (old : Row) × (c' : Chainstate) × (set_tip by_hash fork first_stored ≡ done (true, old.hash) c')
    × In old first_table
    × (old.branch ≡ 0)
    × (get_tip_height first_table ≡ pos old.height)
    × IsTree by_hash c'.blocks
    × (get_tip_height c'.blocks ≡ pos 1)
    × ((n : Row) × In n c'.blocks × (n.hash ≡ "fork") × (n.branch ≡ 0))
    × ((q : Row)
        → In q (first_table ++ row_of by_hash fork (get_free_branch_number first_table) ∷ [])
        → (q' : Row) × In q' c'.blocks
          × (q'.hash ≡ q.hash)
          × ((q'.branch ≡ 0)
              ↔ ((is_among (fork ∷ []) q ≡ true) ⊎ ((q.branch ≡ 0) × (q.height < 1)))))
set_tip_new-IsTree_example =
    set_tip_new-IsTree by_hash first_stored first_table-IsTree fork by_hash_reads
      (λ r i. ground (arith, texts_differ)) genesis_row (inl refl) refl refl
      (λ r i e. absurd (ground (arith, texts_differ))) (fork ∷ []) fork genesis_row
      get_fork_branch_of_new refl (inl refl) refl refl (omega arith) free_fits

sanity_check-passes_example : sanity_check by_hash table ≡ some tt
sanity_check-passes_example =
    sanity_check-passes by_hash table table-IsTree (row_of by_hash genesis 0) (inl refl) refl

-- Clears the table, and fails.
abbrev failing : Action Chainstate (Unit {0})
failing = on_blocks (λ rs. some []) >> throw

with_batch-reverts_example :
    Post
      (λ _ c'. c'.savepoints ≡ stored.savepoints)
      (λ c'. c' ≡ stored)
      (Unit {0})
      (with_batch failing stored)
with_batch-reverts_example = with_batch-reverts failing stored (λ c. refl)

import_tip-IsTree_example :
    (c' : Chainstate) × (import_tip by_hash fork first_stored ≡ done tt c')
    × IsTree by_hash c'.blocks
    × ((r : Row)
        → In r c'.blocks ↔ ((In r first_table × (r.branch ≢ 0)) ⊎ (r ≡ row_of by_hash fork 0)))
    × (get_tip_height c'.blocks ≡ pos 1)
    × (c'.savepoints ≡ [])
import_tip-IsTree_example =
    import_tip-IsTree by_hash first_stored first_table-IsTree fork by_hash_reads
      (λ r i. ground (arith, texts_differ)) (λ r i z. ground arith)
      (inr (genesis_row, inl refl, refl)) (λ r i e. absurd (ground (arith, texts_differ)))
      (λ r i e. ground (arith, texts_differ)) (ground (arith, texts_differ)) (omega arith)
