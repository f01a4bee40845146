-- ===== src/Chainstate/Segments.antt =====
-- The rows of a branch of a well-formed table up to a height, as segments of a path: what
-- Chainstate::GetForkBranch of src/chainstate.cpp reads in a round.
use xayax.Prelude.{
  ℕ, ◌+◌, ◌≤◌, ◌<◌, ◌≡◌, ◌≢◌, ◌⊎◌, inl, inr, refl, ap, sym, ◌∙◌, arith, String, true, List, [], ◌∷◌,
  ◌++◌, some, select, last?, leb, ◌&&◌, subst,
}
use xayax.BlockData.{BlockData, Codec}
use xayax.Chainstate.Table.{Row, on_branch, constraints_hold}
use xayax.Chainstate.Fork.{branch_below, decode, decode_all}
use xayax.Chainstate.Members.{
  In, In-select, In-select_inv, In-order_desc, order_desc-IsDescending, IsDescending,
  le_of_AllBelow, falls, constraints_hold-tail, constraints_hold-order_desc,
  constraints_hold-select, same_row,
}
use xayax.Chainstate.Tree.{IsTree}

-- The rows of a branch up to a height.
pub In-branch_below_inv :
    (b h : ℕ) (q : Row) (rs : List Row)
    → In q (branch_below b h rs)
    → In q rs × (q.branch ≡ b) × (q.height ≤ h)
unfolding branch_below
In-branch_below_inv b h q rs i = ground (
  arith,
  In-select_inv (λ r. on_branch b r && leb r.height h) q rs
      ((In-order_desc q (select (λ r. on_branch b r && leb r.height h) rs)).0 i),
)

pub In-branch_below :
    (b h : ℕ) (q : Row) (rs : List Row)
    → In q rs
    → q.branch ≡ b
    → q.height ≤ h
    → In q (branch_below b h rs)
unfolding branch_below
In-branch_below b h q rs i e l =
    (In-order_desc q (select (λ r. on_branch b r && leb r.height h) rs)).1
      (In-select (λ r. on_branch b r && leb r.height h) q rs i (ground arith))

pub branch_below-IsDescending : (b h : ℕ) (rs : List Row) → IsDescending (branch_below b h rs)
unfolding branch_below
branch_below-IsDescending b h rs =
    order_desc-IsDescending (select (λ q. on_branch b q && leb q.height h) rs)

pub branch_below-keys :
    (b h : ℕ) (rs : List Row)
    → constraints_hold rs ≡ true
    → constraints_hold (branch_below b h rs) ≡ true
unfolding branch_below
branch_below-keys b h rs c =
    constraints_hold-order_desc (select (λ q. on_branch b q && leb q.height h) rs)
      (constraints_hold-select (λ r. on_branch b r && leb r.height h) rs c)

module _ {Json : Type 0} (codec : Codec Json) (rs : List Row) (tree : IsTree codec rs) where
  -- A block that stands for a row.
  abbrev pub Stands : Row → BlockData Json → Type 0
  Stands r blk = decode codec r ≡ some blk

  abbrev pub AllStand : List Row → List (BlockData Json) → Type 0
  AllStand [] [] = Unit {0}
  AllStand [] (b ∷ bs) = ⊥
  AllStand (r ∷ l) [] = ⊥
  AllStand (r ∷ l) (b ∷ bs) = Stands r b × AllStand l bs

  pub Stands-fields :
      (r : Row) (b : BlockData Json)
      → Stands r b
      → (b.hash ≡ r.hash) × (b.parent ≡ r.parent) × (b.height ≡ r.height)
  unfolding decode
  Stands-fields r b e = ground arith

  pub decode_all-total :
      (l : List Row)
      → ((q : Row) → In q l → In q rs)
      → (bs : List (BlockData Json)) × (decode_all codec l ≡ some bs) × AllStand l bs
  unfolding decode_all
  decode_all-total [] i = ([], refl, tt)
  decode_all-total (r ∷ l) i =
      let (b, e) = tree.stored r (i r (inl refl)) in
      let (bs, f, a) = decode_all-total l (λ q j. i q (inr j)) in (b ∷ bs, ground arith, (e, a))

  -- Nothing is known of the hash, or it is on the main chain.
  abbrev pub Ends : String → Type 0
  Ends cur =
      ((p : Row) → In p rs → p.hash ≢ cur) ⊎ ((p : Row) × In p rs × (p.hash ≡ cur) × (p.branch ≡ 0))

  -- The blocks lead from a hash over stored blocks on branches, each the parent of the one before, to
  -- the main chain or to a hash that is not known.
  abbrev pub PathTo : String → List (BlockData Json) → Type 0
  PathTo cur [] = Ends cur
  PathTo cur (b ∷ bs) =
      ((r : Row) × In r rs × (r.hash ≡ cur) × (r.branch ≢ 0) × Stands r b) × PathTo b.parent bs

  -- A list of rows that holds the parent of each but its lowest.
  abbrev pub HoldsParents : List Row → Type 0
  HoldsParents l =
      (r q : Row)
      → In r l
      → In q l
      → q.height < r.height
      → (p : Row) × In p l × (p.hash ≡ r.parent) × (p.height + 1 ≡ r.height)

  abbrev OnBranch : ℕ → List Row → Type 0
  OnBranch k l = (r : Row) → In r l → In r rs × (r.branch ≡ k)

  HoldsParents-tail :
      (q : Row) (l : List Row)
      → ((r : Row) → In r l → r.height < q.height)
      → HoldsParents (q ∷ l)
      → HoldsParents l
  HoldsParents-tail q l below h r s i j lt = go (h r s (inr i) (inr j) lt)
    where
      go :
          ((p : Row) × In p (q ∷ l) × (p.hash ≡ r.parent) × (p.height + 1 ≡ r.height))
          → (p : Row) × In p l × (p.hash ≡ r.parent) × (p.height + 1 ≡ r.height)
      go (p, inl e, f, g) = absurd (ground (arith, below r i))
      go (p, inr k, f, g) = (p, k, f, g)

  next_is_parent :
      (k : ℕ) (q r : Row) (l : List Row)
      → OnBranch k (q ∷ r ∷ l)
      → IsDescending (q ∷ r ∷ l)
      → r.height < q.height
      → HoldsParents (q ∷ r ∷ l)
      → r.hash ≡ q.parent
  next_is_parent k q r l on d lt h = go (h q r (inl refl) (inr (inl refl)) lt)
    where
      go :
          ((p : Row) × In p (q ∷ r ∷ l) × (p.hash ≡ q.parent) × (p.height + 1 ≡ q.height))
          → r.hash ≡ q.parent
      go (p, inl e, f, g) = absurd (ground arith)
      go (p, inr (inl e), f, g) = ground arith
      go (p, inr (inr i), f, g) =
          ap (λ (x : Row). x.hash)
            (same_row r p rs tree.keys (on r (inr (inl refl))).0 (on p (inr (inr i))).0 (
              inr (
                (on r (inr (inl refl))).1 ∙ sym (on p (inr (inr i))).1,
                omega (arith, le_of_AllBelow r.height p l d.1.0 i),
              )))
          ∙ f

  pub segment-PathTo :
      (k : ℕ) (cur : String) (q : Row) (l : List Row) (b : BlockData Json)
      (bs rest : List (BlockData Json)) (last : BlockData Json)
      → k ≢ 0
      → OnBranch k (q ∷ l)
      → IsDescending (q ∷ l)
      → constraints_hold (q ∷ l) ≡ true
      → HoldsParents (q ∷ l)
      → AllStand (q ∷ l) (b ∷ bs)
      → q.hash ≡ cur
      → last? (b ∷ bs) ≡ some last
      → PathTo last.parent rest
      → PathTo cur ((b ∷ bs) ++ rest)
  segment-PathTo k cur q [] b [] rest last n on d c h st e le path =
      let same_block : last ≡ b = ground arith in
      (
        (q, (on q (inl refl)).0, e, (λ z. n (sym (on q (inl refl)).1 ∙ z)), st.0),
        subst (λ (x : BlockData Json). PathTo x.parent rest) same_block path,
      )
  segment-PathTo k cur q [] b (b' ∷ bs) rest last n on d c h st e le path = absurd st.1
  segment-PathTo k cur q (r ∷ l) b [] rest last n on d c h st e le path = absurd st.1
  segment-PathTo k cur q (r ∷ l) b (b' ∷ bs) rest last n on d c h st e le path =
      let lt : r.height < q.height =
        falls q r l c d ((on r (inr (inl refl))).1 ∙ sym (on q (inl refl)).1) in
      (
        (q, (on q (inl refl)).0, e, (λ z. n (sym (on q (inl refl)).1 ∙ z)), st.0),
        segment-PathTo k b.parent r l b' bs rest last n (λ s i. on s (inr i)) d.1
            (constraints_hold-tail q (r ∷ l) c)
            (HoldsParents-tail q (r ∷ l) (λ s i. below s i lt) h) st.1
            (next_is_parent k q r l on d lt h ∙ sym (Stands-fields q b st.0).1) le path,
      )
    where
      below : (s : Row) → In s (r ∷ l) → r.height < q.height → s.height < q.height
      below s (inl f) lt = ground arith
      below s (inr i) lt = omega (arith, le_of_AllBelow r.height s l d.1.0 i)

  pub branch_below-HoldsParents : (k h : ℕ) → HoldsParents (branch_below k h rs)
  branch_below-HoldsParents k h r q i j lt =
      let (ir, er, lr) = In-branch_below_inv k h r rs i in
      let (iq, eq', lq) = In-branch_below_inv k h q rs j in
      let (p, ip, ep, bp) = tree.linked r q ir iq (ground arith) lt in
      let up : p.height + 1 ≡ r.height = tree.heights r p ir ip ep in
      (p, In-branch_below k h p rs ip (bp ∙ er) (omega arith), ep, up)

  pub last-Stands :
      (l : List Row) (bs : List (BlockData Json)) (b : BlockData Json)
      → AllStand l (b ∷ bs)
      → (z : BlockData Json) × (last? (b ∷ bs) ≡ some z) × ((r : Row) × In r l × Stands r z)
  last-Stands [] bs b a = elim a [ ]
  last-Stands (r ∷ l) [] b a = (b, refl, (r, inl refl, a.0))
  last-Stands (r ∷ []) (b' ∷ bs) b a = elim a.1 [ ]
  last-Stands (r ∷ q ∷ l) (b' ∷ bs) b a =
      let (z, e, (s, i, st)) = last-Stands (q ∷ l) bs b' a.1 in (z, e, (s, inr i, st))

  pub last?-append :
      (xs : List (BlockData Json)) (b : BlockData Json) (bs : List (BlockData Json))
      → last? (xs ++ (b ∷ bs)) ≡ last? (b ∷ bs)
  last?-append [] b bs = refl
  last?-append (x ∷ []) b bs = refl
  last?-append (x ∷ y ∷ xs) b bs = last?-append (y ∷ xs) b bs
