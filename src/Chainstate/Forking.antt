-- ===== src/Chainstate/Forking.antt =====
-- Chainstate::GetForkBranch on a well-formed table: it returns, and what it returns is the path from
-- the block to the main chain.
use mathlib.Core.List.{append-nil, append_assoc}
use xayax.Prelude.{
  ℕ, zero, suc, ◌+◌, ◌≤◌, ◌≡◌, ◌≢◌, ◌⊎◌, inl, inr, refl, ap, sym, ◌∙◌, arith, String, true, false,
  List, [], ◌∷◌, ◌++◌, Option, none, some, select, last?, ◌==◌, Bool-cases, subst,
}
use xayax.BlockData.{BlockData, Codec}
use xayax.Chainstate.Table.{Row, has_hash, only, constraints_hold}
use xayax.Chainstate.Fork.{branch_below, decode_all, fork_from, get_fork_branch, top, found_some}
use xayax.Chainstate.Members.{In, IsDescending, le_of_AllBelow, le-top, query-Finds, same_row}
use xayax.Chainstate.Tree.{IsTree}
use xayax.Chainstate.Segments.{
  AllStand, HoldsParents, PathTo, Stands-fields, branch_below-HoldsParents, decode_all-total,
  last-Stands, last?-append, segment-PathTo, In-branch_below_inv, In-branch_below,
  branch_below-IsDescending, branch_below-keys,
}

module _ {Json : Type 0} (codec : Codec Json) (rs : List Row) (tree : IsTree codec rs) where
  -- What a round of the loop reads of a branch, from one of its rows down.
  record Segment (cur : String) (r : Row) : Type 0 where
    first : BlockData Json
    others : List (BlockData Json)
    final : BlockData Json
    lowest : Row
    reads : decode_all codec (branch_below r.branch r.height rs) ≡ some (first ∷ others)
    ends_with : last? (first ∷ others) ≡ some final
    lowest_in : In lowest rs
    lowest_height : lowest.height ≤ r.height
    final_parent : final.parent ≡ lowest.parent
    leads :
        (rest : List (BlockData Json))
        → PathTo codec rs tree final.parent rest
        → PathTo codec rs tree cur ((first ∷ others) ++ rest)

  head_is : (r q : Row) (l : List Row) → In r rs → branch_below r.branch r.height rs ≡ q ∷ l → q ≡ r
  head_is r q l i f =
      go (subst (In r) f (In-branch_below r.branch r.height r rs i refl (omega arith)))
    where
      of_q : In q rs × (q.branch ≡ r.branch) × (q.height ≤ r.height)
      of_q = In-branch_below_inv r.branch r.height q rs (subst (In q) (sym f) (inl refl))

      go : In r (q ∷ l) → q ≡ r
      go (inl e) = sym e
      go (inr j) = same_row q r rs tree.keys of_q.0 i (
          inr (
            of_q.1,
            omega (
              arith,
              of_q.2,
              le_of_AllBelow q.height r l
                  (subst IsDescending f (branch_below-IsDescending r.branch r.height rs)).0 j,
            ),
          ))

  with-Segment :
      (cur : String) (r q : Row) (l : List Row) (bs : List (BlockData Json))
      → In r rs
      → r.hash ≡ cur
      → r.branch ≢ 0
      → branch_below r.branch r.height rs ≡ q ∷ l
      → decode_all codec (branch_below r.branch r.height rs) ≡ some bs
      → AllStand codec rs tree (q ∷ l) bs
      → Segment cur r
  with-Segment cur r q l [] i e n f d a = absurd a
  with-Segment cur r q l (b ∷ bs) i e n f d a =
      let (z, le, (low, j, st)) = last-Stands codec rs tree (q ∷ l) bs b a in
      let (jr, jb, jh) = of_row low j in
      record {
        first = b;
        others = bs;
        final = z;
        lowest = low;
        reads = d;
        ends_with = le;
        lowest_in = jr;
        lowest_height = jh;
        final_parent = (Stands-fields codec rs tree low z st).1;
        leads = λ rest path.
            segment-PathTo codec rs tree r.branch cur q l b bs rest z n
              (λ s k. ((of_row s k).0, (of_row s k).1))
              (subst IsDescending f (branch_below-IsDescending r.branch r.height rs))
              (subst (λ x. constraints_hold x ≡ true) f
                (branch_below-keys r.branch r.height rs tree.keys))
              (subst (HoldsParents codec rs tree) f
                (branch_below-HoldsParents codec rs tree r.branch r.height))
              a (ap (λ (x : Row). x.hash) (head_is r q l i f) ∙ e) le path;
      }
    where
      of_row : (s : Row) → In s (q ∷ l) → In s rs × (s.branch ≡ r.branch) × (s.height ≤ r.height)
      of_row s k = In-branch_below_inv r.branch r.height s rs (subst (In s) (sym f) k)

  of-Segment :
      (cur : String) (r : Row) (l : List Row)
      → In r rs
      → r.hash ≡ cur
      → r.branch ≢ 0
      → branch_below r.branch r.height rs ≡ l
      → Segment cur r
  of-Segment cur r [] i e n f =
      absurd (subst (In r) f (In-branch_below r.branch r.height r rs i refl (omega arith)))
  of-Segment cur r (q ∷ l) i e n f =
      let (bs, d, a) =
        decode_all-total codec rs tree (q ∷ l)
          (λ s k. (In-branch_below_inv r.branch r.height s rs (subst (In s) (sym f) k)).0) in
      with-Segment cur r q l bs i e n f (ap (decode_all codec) f ∙ d) a

  -- What the loop returns from a hash, behind the blocks that it has so far.
  abbrev Returned :
      String → List (BlockData Json) → Option (Option (List (BlockData Json))) → Type 0
  Returned cur acc res =
      ((bs : List (BlockData Json)) × PathTo codec rs tree cur bs × (res ≡ some (some (acc ++ bs))))
      ⊎ ((acc ≡ []) × ((p : Row) → In p rs → p.hash ≢ cur) × (res ≡ some none))

  Returned-Segment :
      (cur : String) (acc : List (BlockData Json)) (r : Row) (s : Segment cur r)
      (res : Option (Option (List (BlockData Json))))
      → Returned s.final.parent (acc ++ (s.first ∷ s.others)) res
      → Returned cur acc res
  Returned-Segment cur acc r s res (inl (bs, path, e)) =
      inl ((s.first ∷ s.others) ++ bs, s.leads bs path, rw (← append_assoc) e)
  Returned-Segment cur [] r s res (inr (n, u, e)) = absurd (ground arith)
  Returned-Segment cur (a ∷ acc) r s res (inr (n, u, e)) = absurd (ground arith)

  smaller :
      {cur : String} {fuel : ℕ} (r : Row) (s : Segment cur r)
      → r.height + 2 ≤ suc fuel
      → (p : Row) → In p rs
      → p.hash ≡ s.final.parent
      → p.height + 2 ≤ fuel
  smaller r s b p i e =
      omega (arith, tree.heights s.lowest p s.lowest_in i (e ∙ s.final_parent), s.lowest_height)

  stop_unknown :
      (cur : String) (acc : List (BlockData Json))
      → ((p : Row) → In p rs → p.hash ≢ cur)
      → Returned cur acc (some (found_some codec acc))
  stop_unknown cur [] u = inr (refl, u, refl)
  stop_unknown cur (a ∷ acc) u = inl ([], inl u, rw append-nil)

  round_unknown :
      (fuel : ℕ) (cur : String) (acc : List (BlockData Json))
      → only (select (has_hash cur) rs) ≡ some none
      → fork_from codec rs (suc fuel) cur acc ≡ some (found_some codec acc)
  unfolding fork_from
  round_unknown fuel cur acc e = rw e

  round_main :
      (fuel : ℕ) (cur : String) (acc : List (BlockData Json)) (r : Row)
      → only (select (has_hash cur) rs) ≡ some (some r)
      → r.branch ≡ 0
      → fork_from codec rs (suc fuel) cur acc ≡ some (some acc)
  unfolding fork_from
  round_main fuel cur acc r e z = rw (e, z)

  round_branch :
      (fuel : ℕ) (cur : String) (acc part : List (BlockData Json)) (r : Row) (z : BlockData Json)
      → only (select (has_hash cur) rs) ≡ some (some r)
      → (r.branch == 0) ≡ false
      → decode_all codec (branch_below r.branch r.height rs) ≡ some part
      → last? (acc ++ part) ≡ some z
      → fork_from codec rs (suc fuel) cur acc ≡ fork_from codec rs fuel z.parent (acc ++ part)
  unfolding fork_from
  round_branch fuel cur acc part r z e n d l = ground arith

  fork_from-Returned :
      (fuel : ℕ) (cur : String) (acc : List (BlockData Json))
      → 1 ≤ fuel
      → ((r : Row) → In r rs → r.hash ≡ cur → r.height + 2 ≤ fuel)
      → Returned cur acc (fork_from codec rs fuel cur acc)
  fork_from-Returned zero cur acc one enough = absurd (omega arith)
  fork_from-Returned (suc fuel) cur acc one enough = elim (query-Finds cur rs tree.keys) [
    | inl (e, u) ↦ rw (round_unknown fuel cur acc e) (stop_unknown cur acc u)
    | inr (r, e, i, h) ↦ elim (Bool-cases (r.branch == 0)) [
      | inl z ↦
          let main : r.branch ≡ 0 = ground arith in
          inl ([], inr (r, i, h, main), rw append-nil (round_main fuel cur acc r e main))
      | inr n ↦
          let off : r.branch ≢ 0 = ground arith in
          let s = of-Segment cur r (branch_below r.branch r.height rs) i h off refl in
          rw
            (round_branch fuel cur acc (s.first ∷ s.others) r s.final e n s.reads
              (last?-append codec rs tree acc s.first s.others ∙ s.ends_with))
            (Returned-Segment cur acc r s _ (
              fork_from-Returned fuel s.final.parent (acc ++ (s.first ∷ s.others))
                (omega (arith, enough r i h)) (smaller r s (enough r i h))))
    ]
  ]

  -- On a well-formed table, the loop returns: for a hash of the table it reads the path from that block
  -- over branches in full, each block followed by its parent, down to the main chain or to a parent
  -- that is not known, and the result false means that the hash is not known.
  pub get_fork_branch-PathTo :
      (hash : String)
      → ((bs : List (BlockData Json)) × PathTo codec rs tree hash bs
          × (get_fork_branch codec rs hash ≡ some (some bs)))
        ⊎ (((p : Row) → In p rs → p.hash ≢ hash) × (get_fork_branch codec rs hash ≡ some none))
  unfolding get_fork_branch
  get_fork_branch-PathTo hash =
      elim (fork_from-Returned (top rs + 2) hash [] (omega arith)
        (λ r i e. omega (arith, le-top r rs i))) [ inl w ↦ inl w | inr (n, u, e) ↦ inr (u, e) ]
