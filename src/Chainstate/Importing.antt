-- ===== src/Chainstate/Importing.antt =====
-- ImportTip of src/chainstate.cpp for a block that the table does not have.
use xayax.Prelude.{
  String, ◌+◌, ◌-◌, ◌<◌, ◌≤◌, ◌≡◌, ◌≢◌, ◌⊎◌, ◌↔◌, inl, inr, refl, sym, ◌∙◌, ap, subst, arith, true,
  not, ◌&&◌, Bool-cases, List, [], ◌∷◌, ◌++◌, none, some, select, pos, ltb, leb, i64_bound,
  if◌then◌else◌, ℕ_discrete,
}
use xayax.Prelude.Action.{done}
use xayax.BlockData.{BlockData, Codec, ReadsBack}
use xayax.Chainstate.Table.{Row, has_hash, only, on_branch, constraints_hold}
use xayax.Chainstate.Fork.{decode}
use xayax.Chainstate.Members.{In, In-select, In-select_inv, query-Finds, constraints_hold-select}
use xayax.Chainstate.Tree.{IsTree}
use xayax.Chainstate.Ops.{
  get_tip_height, get_lowest_unpruned_height, get_height_for_hash, row_of, insert_block, prune_rows,
}
use xayax.Chainstate.Methods.{
  Chainstate, savepoint, release, with_batch, prune, import_tip, below_height,
}
use xayax.Chainstate.Extending.{In-snoc, constraints_hold-snoc, not_found, insert_block_new}
use xayax.Chainstate.Pruning.{pruned_rows, In-pruned_rows}
use xayax.Chainstate.Rewinding.{get_tip_height-pos, highest_on_main}
use xayax.Chainstate.Branches.{lowest_of}

-- The height of the lowest block of the main chain, where it is the only one.
lowest_only :
    (n : Row) (l : List Row)
    → In n l
    → n.branch ≡ 0
    → ((q : Row) → In q l → q.branch ≡ 0 → q ≡ n)
    → get_lowest_unpruned_height l ≡ pos n.height
unfolding get_lowest_unpruned_height
lowest_only n l i z u =
    let (q, e, j) =
      lowest_of n (select (on_branch 0) l) (In-select (on_branch 0) n l i (ground arith)) in
    let k = In-select_inv (on_branch 0) q l j in
    rw e (ap (λ (x : Row). pos x.height) (u q k.0 (ground (arith, k))))

-- The calls of ImportTip, in order.
import_tip_runs :
    {Json : Type 0} (codec : Codec Json) (tip : BlockData Json) (c : Chainstate) (rs' : List Row)
    → below_height (get_tip_height c.blocks) tip.height ≡ true
    → get_height_for_hash c.blocks tip.hash ≡ some none
    → insert_block codec tip 0 c.blocks ≡ some rs'
    → tip.height < i64_bound
    → (l : List Row) → l ≡ (if ltb 0 tip.height then pruned_rows (tip.height - 1) rs' else rs')
    → get_lowest_unpruned_height l ≡ pos tip.height
    → get_tip_height l ≡ pos tip.height
    → import_tip codec tip c ≡ done tt (record c { contents = record c.contents { blocks = l } })
unfolding import_tip with_batch savepoint release prune prune_rows
import_tip_runs codec tip c rs' b k i f l e w t = ground arith

unknown_height :
    (h : String) (rs : List Row)
    → only (select (has_hash h) rs) ≡ some none
    → get_height_for_hash rs h ≡ some none
unfolding get_height_for_hash
unknown_height h rs e = ground (arith, e)

module _ {Json : Type 0} (codec : Codec Json) (c : Chainstate) (tree : IsTree codec c.blocks)
    (tip : BlockData Json) (reads : ReadsBack codec tip)
    (fresh : (r : Row) → In r c.blocks → r.hash ≢ tip.hash)
    (above : (r : Row) → In r c.blocks → r.branch ≡ 0 → r.height < tip.height)
    (start : (c.blocks ≡ []) ⊎ ((m : Row) × In m c.blocks × (m.branch ≡ 0)))
    (children : (r : Row) → In r c.blocks → r.parent ≡ tip.hash → tip.height + 1 ≡ r.height)
    (level : (r : Row) → In r c.blocks → r.hash ≡ tip.parent → r.height + 1 ≡ tip.height)
    (not_itself : tip.parent ≢ tip.hash) where
  abbrev n : Row
  n = row_of codec tip 0

  decode-n : decode codec n ≡ some tip
  unfolding decode
  decode-n = ground (arith, reads)

  -- What is left: the blocks on branches, and the new tip.
  abbrev pub Left : Row → Type 0
  Left r = (In r c.blocks × (r.branch ≢ 0)) ⊎ (r ≡ n)

  -- A block on a branch whose parent is not left lies at the tip's height at most.
  low_enough :
      (r : Row)
      → In r c.blocks
      → r.branch ≢ 0
      → ((p : Row) → Left p → p.hash ≢ r.parent)
      → r.height ≤ tip.height
  low_enough r i z u = elim start [
    | inl e ↦ elim (subst (In r) e i) [ ]
    | inr (m, j, k) ↦ elim (query-Finds r.parent c.blocks tree.keys) [
      | inl (f, missing) ↦ omega (arith, tree.pruned r m i j z missing k, above m j k)
      | inr (p, f, l, h) ↦ elim (ℕ_discrete p.branch 0) [
        | yes y ↦ omega (arith, tree.heights r p i l h, above p l y)
        | no y ↦ absurd (u p (inl (l, y)) h)
      ]
    ]
  ]

  module _ (l : List Row) (keys : constraints_hold l ≡ true)
      (left : (r : Row) → In r l ↔ Left r) where
    left-IsTree : IsTree codec l
    left-IsTree = record {
      keys = keys;
      stored = λ r i. elim ((left r).0 i) [
        | inl j ↦ tree.stored r j.0
        | inr e ↦ (tip, ap (decode codec) e ∙ decode-n)
      ];
      heights = λ r p i j e. elim ((left r).0 i) [
        | inl k ↦ elim ((left p).0 j) [
          | inl o ↦ tree.heights r p k.0 o.0 e
          | inr f ↦ ground (arith, children r k.0)
        ]
        | inr f ↦ elim ((left p).0 j) [
          | inl o ↦ ground (arith, level p o.0 (e ∙ ap (λ (x : Row). x.parent) f))
          | inr g ↦
              absurd (
                not_itself
                  (sym (ap (λ (x : Row). x.parent) f) ∙ sym e ∙ ap (λ (x : Row). x.hash) g))
        ]
      ];
      linked = λ r q i j e lt. elim ((left r).0 i) [
        | inl k ↦ elim ((left q).0 j) [
          | inl o ↦
              let (p, a, f, g) = tree.linked r q k.0 o.0 e lt in
              (p, (left p).1 (inl (a, λ z. k.1 (sym g ∙ z))), f, g)
          | inr g ↦ absurd (k.1 (sym e ∙ ap (λ (x : Row). x.branch) g))
        ]
        | inr f ↦ elim ((left q).0 j) [
          | inl o ↦ absurd (o.1 (e ∙ ap (λ (x : Row). x.branch) f))
          | inr g ↦ absurd (ground arith)
        ]
      ];
      pruned = λ r q i j z u e. elim ((left r).0 i) [
        | inl k ↦ elim ((left q).0 j) [
          | inl o ↦ absurd (o.1 e)
          | inr g ↦ rw g (low_enough r k.0 z (λ p a. u p ((left p).1 a)))
        ]
        | inr f ↦ absurd (z (ap (λ (x : Row). x.branch) f))
      ];
    }

    only_main : (q : Row) → In q l → q.branch ≡ 0 → q ≡ n
    only_main q i z = elim ((left q).0 i) [ inl k ↦ absurd (k.1 z) | inr e ↦ e ]

    tip_after : get_tip_height l ≡ pos tip.height
    tip_after =
        get_tip_height-pos n l ((left n).1 (inr refl)) refl
          (λ q i z. rw (only_main q i z) (omega arith))

    lowest_after : get_lowest_unpruned_height l ≡ pos tip.height
    lowest_after = lowest_only n l ((left n).1 (inr refl)) refl only_main

  inserted : List Row
  inserted = c.blocks ++ n ∷ []

  inserted-keys : constraints_hold inserted ≡ true
  unfolding inserted
  inserted-keys =
      constraints_hold-snoc n c.blocks (λ r i. ground (arith, fresh r i, above r i)) tree.keys

  -- What is left after pruning.
  result : List Row
  unfolding inserted
  result = if ltb 0 tip.height then pruned_rows (tip.height - 1) inserted else inserted

  result-keys : constraints_hold result ≡ true
  unfolding result
  result-keys = elim (Bool-cases (ltb 0 tip.height)) [
    | inl e ↦ rw e (
        constraints_hold-select (λ r. not (on_branch 0 r && leb r.height (tip.height - 1))) inserted
          inserted-keys)
    | inr e ↦ rw e inserted-keys
  ]

  result-Left : (r : Row) → In r result ↔ Left r
  unfolding result inserted
  result-Left r = elim (Bool-cases (ltb 0 tip.height)) [
    | inl e ↦
        rw e (
          ground (arith, In-pruned_rows (tip.height - 1) r inserted, In-snoc r n c.blocks, above r))
    | inr e ↦ rw e (elim start [
      | inl z ↦ (
        (λ i. elim ((In-snoc r n c.blocks).0 i) [
          | inl j ↦ elim (subst (In r) z j) [ ]
          | inr f ↦ inr f
        ]),
        (λ w. elim w [
          | inl k ↦ (In-snoc r n c.blocks).1 (inl k.0)
          | inr f ↦ (In-snoc r n c.blocks).1 (inr f)
        ]),
      )
      | inr (m, i, y) ↦ absurd (ground (arith, above m i y))
    ])
  ]

  below_tip : below_height (get_tip_height c.blocks) tip.height ≡ true
  unfolding get_tip_height
  below_tip = elim start [
    | inl e ↦ rw e refl
    | inr (m, i, z) ↦
        let (old, o, j, y, t) = highest_on_main codec c tree m i z in
        ground (arith, o, above old j y)
  ]

  -- On a well-formed table that is empty or has a block of the main chain, ImportTip for a block that the
  -- table does not have returns, where the block can be read back from its bytes, it lies above the main
  -- chain, it is not its own parent, it is one above its parent and one below the blocks that it is the
  -- parent of, if the table has these, and its height fits int64_t. The table stays well-formed, and what
  -- it has then is the blocks on branches and, on the main chain, the block alone, which is the tip; the
  -- savepoints stay.
  pub import_tip-IsTree :
      tip.height < i64_bound
      → (c' : Chainstate) × (import_tip codec tip c ≡ done tt c')
        × IsTree codec c'.blocks
        × ((r : Row)
            → In r c'.blocks ↔ ((In r c.blocks × (r.branch ≢ 0)) ⊎ (r ≡ row_of codec tip 0)))
        × (get_tip_height c'.blocks ≡ pos tip.height)
        × (c'.savepoints ≡ c.savepoints)
  unfolding result inserted
  import_tip-IsTree fits = (
    record c { contents = record c.contents { blocks = result } },
    import_tip_runs codec tip c inserted below_tip
        (unknown_height tip.hash c.blocks (not_found codec c tree tip fresh))
        (insert_block_new codec c tree tip 0 inserted refl fits (omega arith) inserted-keys) fits
        result refl (lowest_after result result-keys result-Left)
        (tip_after result result-keys result-Left),
    left-IsTree result result-keys result-Left,
    result-Left,
    tip_after result result-keys result-Left,
    refl,
  )
