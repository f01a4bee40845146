-- ===== src/Chainstate/Pruning.antt =====
-- Chainstate::Prune keeps the table well-formed.
use xayax.Prelude.{
  ℕ, ◌≤◌, ◌<◌, ◌≡◌, ◌≢◌, ◌⊎◌, ◌↔◌, inl, inr, refl, arith, not, ◌&&◌, List, leb, i64_bound,
}
use xayax.Prelude.Action.{done}
use xayax.BlockData.{Codec}
use xayax.Chainstate.Table.{Row, on_branch, delete}
use xayax.Chainstate.Members.{In, In-select, In-select_inv, constraints_hold-select, query-Finds}
use xayax.Chainstate.Tree.{IsTree}
use xayax.Chainstate.Ops.{prune_rows}
use xayax.Chainstate.Methods.{Chainstate, savepoint, release, with_batch, prune}

-- The rows that stay: those on branches, and those of the main chain above the height.
abbrev pub Stays : ℕ → Row → Type 0
Stays h r = (r.branch ≢ 0) ⊎ (h < r.height)

abbrev pub pruned_rows : ℕ → List Row → List Row
pruned_rows h = delete (λ r. on_branch 0 r && leb r.height h)

pub In-pruned_rows :
    (h : ℕ) (r : Row) (rs : List Row) → In r (pruned_rows h rs) ↔ (In r rs × Stays h r)
In-pruned_rows h r rs = ground (
  arith,
  In-select_inv (λ q. not (on_branch 0 q && leb q.height h)) r rs,
  In-select (λ q. not (on_branch 0 q && leb q.height h)) r rs,
)

module _ {Json : Type 0} (codec : Codec Json) where
  module _ (h : ℕ) (rs : List Row) (tree : IsTree codec rs) where
    stays : (r : Row) → In r (pruned_rows h rs) → In r rs × Stays h r
    stays r i = (In-pruned_rows h r rs).0 i

    linked_still :
        (r q : Row)
        → In r (pruned_rows h rs)
        → In q (pruned_rows h rs)
        → q.branch ≡ r.branch
        → q.height < r.height
        → (p : Row) × In p (pruned_rows h rs) × (p.hash ≡ r.parent) × (p.branch ≡ r.branch)
    linked_still r q i j e l =
        let (p, k, f, b) = tree.linked r q (stays r i).0 (stays q j).0 e l in
        (
          p,
          (In-pruned_rows h p rs).1
              (k, ground (arith, stays q j, tree.heights r p (stays r i).0 k f)),
          f,
          b,
        )

    pruned_still :
        (r q : Row)
        → In r (pruned_rows h rs)
        → In q (pruned_rows h rs)
        → r.branch ≢ 0
        → ((p : Row) → In p (pruned_rows h rs) → p.hash ≢ r.parent)
        → q.branch ≡ 0
        → r.height ≤ q.height
    pruned_still r q i j n u e = elim (query-Finds r.parent rs tree.keys) [
      | inl (f, v) ↦ tree.pruned r q (stays r i).0 (stays q j).0 n v e
      | inr (p, f, k, g) ↦
          ground
            (arith, u p, (In-pruned_rows h p rs).1, stays q j, tree.heights r p (stays r i).0 k)
    ]

    pruned_rows-IsTree : IsTree codec (pruned_rows h rs)
    pruned_rows-IsTree = record {
      keys = constraints_hold-select (λ r. not (on_branch 0 r && leb r.height h)) rs tree.keys;
      stored = λ r i. tree.stored r (stays r i).0;
      heights = λ r p i j e. tree.heights r p (stays r i).0 (stays p j).0 e;
      linked = linked_still;
      pruned = pruned_still;
    }

  -- On a well-formed table, Prune returns for a height that fits int64_t and leaves a well-formed table:
  -- the blocks of the main chain up to the height are gone, all others stay, and neither the chain's
  -- name nor an open batch changes.
  pub prune-IsTree :
      (h : ℕ) (c : Chainstate)
      → h < i64_bound
      → IsTree codec c.blocks
      → (c' : Chainstate) × (prune h c ≡ done tt c')
        × IsTree codec c'.blocks
        × ((r : Row) → In r c'.blocks ↔ (In r c.blocks × Stays h r))
        × (c'.chain ≡ c.chain)
        × (c'.savepoints ≡ c.savepoints)
  unfolding prune prune_rows with_batch savepoint release
  prune-IsTree h c b tree = (
    record c { contents = record c.contents { blocks = pruned_rows h c.blocks } },
    ground arith,
    pruned_rows-IsTree h c.blocks tree,
    (λ r. In-pruned_rows h r c.blocks),
    refl,
    refl,
  )
