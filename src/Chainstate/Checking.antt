-- ===== src/Chainstate/Checking.antt =====
-- SanityCheck of src/chainstate.cpp on well-formed tables.
use native.Mathlib.Nat.{lt_trans}
use xayax.Prelude.{
  ℕ, ◌+◌, ◌<◌, ◌≡◌, ◌≢◌, refl, sym, arith, Bool, true, false, List, [], ◌∷◌, some, select, pos, inl,
  inr, ◌∙◌, All, ◌||◌, ℕ_discrete,
}
use xayax.BlockData.{Codec}
use xayax.Chainstate.Table.{Row, on_branch, order_desc, constraints_hold}
use xayax.Chainstate.Ops.{get_lowest_unpruned_height}
use xayax.Chainstate.Sanity.{
  occurs, distinct_branches, check_end, walk_down, check_branch, check_branches, sanity_check,
}
use xayax.Chainstate.Members.{
  In, In-select, In-select_inv, query-Finds, In-order_desc, IsDescending, order_desc-IsDescending,
  constraints_hold-select, constraints_hold-order_desc, constraints_hold-tail,
}
use xayax.Chainstate.Tree.{IsTree}
use xayax.Chainstate.Branches.{
  lowest_of, strictly_below, occurs-distinct_branches, distinct_branches-rows,
}

module _ {Json : Type 0} (codec : Codec Json) (rs : List Row) (tree : IsTree codec rs) (m : Row)
    (main_in : In m rs) (main : m.branch ≡ 0) where
  lowest_unpruned :
      (q : Row) × (get_lowest_unpruned_height rs ≡ pos q.height) × In q rs × (q.branch ≡ 0)
  unfolding get_lowest_unpruned_height
  lowest_unpruned =
      let (q, e, i) =
        lowest_of m (select (on_branch 0) rs)
          (In-select (on_branch 0) m rs main_in (ground arith)) in
      let j = In-select_inv (on_branch 0) q rs i in (q, rw e refl, j.0, ground (arith, j))

  module _ (b : ℕ) (side : b ≢ 0) where
    -- The rows of the branch that lie below the last one, in descending order.
    record Below (last : Row) (rest : List Row) : Type 0 where
      last_in : In last rs
      on : last.branch ≡ b
      inside : (q : Row) → In q rest → In q rs × (q.branch ≡ b)
      complete : (q : Row) → In q rs → q.branch ≡ b → q.height < last.height → In q rest
      keys : constraints_hold (last ∷ rest) ≡ true
      descending : IsDescending (last ∷ rest)

    Below-lt :
        {last : Row} {rest : List Row}
        → Below last rest
        → (q : Row) → In q rest
        → q.height < last.height
    Below-lt {last} {rest} w =
        strictly_below last rest w.keys w.descending (λ q i. (w.inside q i).1 ∙ sym w.on)

    Below-tail : (last r : Row) (rest : List Row) → Below last (r ∷ rest) → Below r rest
    Below-tail last r rest w = record {
      last_in = (w.inside r (inl refl)).0;
      on = (w.inside r (inl refl)).1;
      inside = λ q i. w.inside q (inr i);
      complete = λ q i o l. elim (w.complete q i o (lt_trans l (Below-lt w r (inl refl)))) [
        | inl e ↦ absurd (ground arith)
        | inr j ↦ j
      ];
      keys = constraints_hold-tail last (r ∷ rest) w.keys;
      descending = w.descending.1;
    }

    -- The next row of the branch is the parent of the one before.
    next_row :
        (last r : Row) (rest : List Row)
        → Below last (r ∷ rest)
        → (r.height + 1 ≡ last.height) × (r.hash ≡ last.parent)
    next_row last r rest w =
        let (i, o) = w.inside r (inl refl) in
        let lt = Below-lt w r (inl refl) in
        let (p, j, h, k) = tree.linked last r w.last_in i (o ∙ sym w.on) lt in
        let up = tree.heights last p w.last_in j h in
        elim (w.complete p j (k ∙ w.on) (omega arith)) [
          | inl e ↦ ground arith
          | inr t ↦ absurd (omega (arith, Below-lt (Below-tail last r rest w) p t))
        ]

    check_end-passes : (last : Row) → Below last [] → check_end codec rs b last ≡ some tt
    unfolding check_end
    check_end-passes last w = elim (query-Finds last.parent rs tree.keys) [
      | inl (e, missing) ↦
          let (q, g, i, k) = lowest_unpruned in
          ground (arith, e, g, tree.pruned last q w.last_in i (λ z. side (sym w.on ∙ z)) missing k)
      | inr (p, e, i, h) ↦
          let up = tree.heights last p w.last_in i h in
          ground (arith, e, up, λ (z : p.branch ≡ b). w.complete p i z (omega arith))
    ]

    walk_down-passes :
        (last : Row) (rest : List Row) → Below last rest → walk_down codec rs b last rest ≡ some tt
    unfolding walk_down
    walk_down-passes last [] w = check_end-passes last w
    walk_down-passes last (r ∷ rest) w =
        let (blk, e) = tree.stored r (w.inside r (inl refl)).0 in
        ground
          (arith, e, next_row last r rest w, walk_down-passes r rest (Below-tail last r rest w))

    rows-pass :
        (l : List Row) (r : Row)
        → In r l
        → ((q : Row) → In q l → In q rs × (q.branch ≡ b))
        → ((q : Row) → In q rs → q.branch ≡ b → In q l)
        → constraints_hold l ≡ true
        → IsDescending l
        → check_branch codec rs b l ≡ some tt
    unfolding check_branch
    rows-pass [] r i inside complete c d = elim i [ ]
    rows-pass (x ∷ l) r i inside complete c d =
        let (j, o) = inside x (inl refl) in
        let (blk, e) = tree.stored x j in
        ground (
          arith,
          e,
          walk_down-passes x l (record {
            last_in = j;
            on = o;
            inside = λ q k. inside q (inr k);
            complete =
                λ q k h lt. elim (complete q k h) [ inl same ↦ absurd (ground arith) | inr t ↦ t ];
            keys = c;
            descending = d;
          }),
        )

    check_branch-passes :
        (r : Row)
        → In r rs
        → r.branch ≡ b
        → check_branch codec rs b (order_desc (select (on_branch b) rs)) ≡ some tt
    check_branch-passes r i o =
        rows-pass (order_desc (select (on_branch b) rs)) r (member r i o)
          (λ q j.
            let k = In-select_inv (on_branch b) q rs ((In-order_desc q _).0 j) in
            (k.0, ground (arith, k)))
          member
          (constraints_hold-order_desc _ (constraints_hold-select (on_branch b) rs tree.keys))
          (order_desc-IsDescending _)
      where
        member : (q : Row) → In q rs → q.branch ≡ b → In q (order_desc (select (on_branch b) rs))
        member q j h =
            (In-order_desc q (select (on_branch b) rs)).1
              (In-select (on_branch b) q rs j (ground arith))

  abbrev HasRow : ℕ → Type 0
  HasRow b = (r : Row) × In r rs × (r.branch ≡ b)

  check_branches-pass :
      (found : Bool) (bs : List ℕ)
      → All HasRow bs
      → check_branches codec rs found bs ≡ some (found || occurs 0 bs)
  unfolding check_branches
  check_branches-pass found [] h = ground arith
  check_branches-pass found (b ∷ bs) h = elim (ℕ_discrete b 0) [
    | yes e ↦ ground (arith, check_branches-pass true bs h.1)
    | no side ↦
        ground
          (arith, check_branches-pass found bs h.1, check_branch-passes b side h.0.0 h.0.1 h.0.2)
  ]

  -- On a well-formed table with a block of the main chain, SanityCheck passes.
  pub sanity_check-passes : sanity_check codec rs ≡ some tt
  unfolding sanity_check
  sanity_check-passes = ground (
    arith,
    check_branches-pass false (distinct_branches rs)
        (distinct_branches-rows HasRow rs (λ r i. (r, i, refl))),
    occurs-distinct_branches m rs main_in,
  )
