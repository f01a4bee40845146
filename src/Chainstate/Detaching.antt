-- ===== src/Chainstate/Detaching.antt =====
-- The UPDATE of MarkAsTip in src/chainstate.cpp that moves the upper end of the main chain to a new
-- branch keeps the table well-formed.
use xayax.Prelude.{
  ℕ, ◌≤◌, ◌<◌, ◌≡◌, ◌≢◌, inl, inr, refl, arith, Bool, true, false, ◌&&◌, List, [], ◌∷◌, Option,
  some, none, ltb, ◌==◌, if◌then◌else◌, i64_bound, Bool-cases,
}
use xayax.BlockData.{Codec}
use xayax.Chainstate.Table.{
  Row, on_branch, set_branch, highest_branch, constrained, constraints_hold, clashes_any,
}
use xayax.Chainstate.Fork.{decode}
use xayax.Chainstate.Members.{In}
use xayax.Chainstate.Tree.{IsTree}
use xayax.Chainstate.Ops.{get_free_branch_number, detach_where}

-- A row after SET `branch` = b.
abbrev pub moved : ℕ → (Row → Bool) → Row → Row
moved b p r = if p r then record r { branch = b } else r

pub In-set_branch :
    (b : ℕ) (p : Row → Bool) (r : Row) (rs : List Row)
    → In r rs
    → In (moved b p r) (set_branch b p rs)
unfolding set_branch
In-set_branch b p r [] i = elim i [ ]
In-set_branch b p r (q ∷ qs) (inl e) = ground arith
In-set_branch b p r (q ∷ qs) (inr i) = inr (In-set_branch b p r qs i)

pub In-set_branch_inv :
    (b : ℕ) (p : Row → Bool) (r : Row) (rs : List Row)
    → In r (set_branch b p rs)
    → (q : Row) × In q rs × (r ≡ moved b p q)
unfolding set_branch
In-set_branch_inv b p r [] i = elim i [ ]
In-set_branch_inv b p r (q ∷ qs) (inl e) = (q, inl refl, e)
In-set_branch_inv b p r (q ∷ qs) (inr i) =
    let (s, j, e) = In-set_branch_inv b p r qs i in (s, inr j, e)

-- A number is no greater than one that has been found.
abbrev AtMost : ℕ → Option ℕ → Type 0
AtMost n none = ⊥
AtMost n (some b) = n ≤ b

le-highest_branch : (r : Row) (rs : List Row) → In r rs → AtMost r.branch (highest_branch rs)
unfolding highest_branch
le-highest_branch r [] i = elim i [ ]
le-highest_branch r (q ∷ qs) (inl e) = ground arith
le-highest_branch r (q ∷ qs) (inr i) = ground (arith, le-highest_branch r qs i)

-- The new number is above all that are in use.
pub lt-get_free_branch_number :
    (r : Row) (rs : List Row) → In r rs → r.branch < get_free_branch_number rs
unfolding get_free_branch_number
lt-get_free_branch_number r rs i = ground (arith, le-highest_branch r rs i)

-- A test that holds of all blocks of the main chain above one of which it holds.
abbrev pub IsUpward : (Row → Bool) → Type 0
IsUpward p = (r q : Row) → p r ≡ true → r.height ≤ q.height → p q ≡ true

module _ {Json : Type 0} (codec : Codec Json) (p : Row → Bool) (up : IsUpward p) (rs : List Row)
    (tree : IsTree codec rs) where
  abbrev pub free : ℕ
  free = get_free_branch_number rs

  abbrev pub leaves : Row → Bool
  leaves r = on_branch 0 r && p r

  abbrev pub detached : List Row
  detached = set_branch free leaves rs

  clashes_any-detached :
      (b : ℕ) (r : Row) (qs : List Row)
      → r.branch < b
      → ((q : Row) → In q qs → q.branch < b)
      → clashes_any r qs ≡ false
      → clashes_any (moved b leaves r) (set_branch b leaves qs) ≡ false
  unfolding clashes_any set_branch
  clashes_any-detached b r [] l k e = refl
  clashes_any-detached b r (q ∷ qs) l k e =
      ground (arith, k q (inl refl), clashes_any-detached b r qs l (λ s i. k s (inr i)))

  keys-detached :
      (b : ℕ) (qs : List Row)
      → ((q : Row) → In q qs → q.branch < b)
      → constraints_hold qs ≡ true
      → constraints_hold (set_branch b leaves qs) ≡ true
  unfolding constraints_hold set_branch
  keys-detached b [] k e = refl
  keys-detached b (q ∷ qs) k e = ground (
    arith,
    keys-detached b qs (λ s i. k s (inr i)),
    clashes_any-detached b q qs (k q (inl refl)) (λ s i. k s (inr i)),
  )

  detached_link :
      (r q : Row)
      → In r rs
      → In q rs
      → (moved free leaves q).branch ≡ (moved free leaves r).branch
      → q.height < r.height
      → (s : Row) × In s rs
        × (s.hash ≡ r.parent)
        × ((moved free leaves s).branch ≡ (moved free leaves r).branch)
  detached_link r q i j e l =
      let same_branch : q.branch ≡ r.branch =
        ground (arith, lt-get_free_branch_number r rs i, lt-get_free_branch_number q rs j) in
      let (s, k, f, b) = tree.linked r q i j same_branch l in
      (
        s,
        k,
        f,
        ground (
          arith,
          tree.heights r s i k f,
          up q s,
          up s r,
          lt-get_free_branch_number r rs i,
          lt-get_free_branch_number q rs j,
        ),
      )

  of_row : (r : Row) → In r detached → (q : Row) × In q rs × (r ≡ moved free leaves q)
  of_row r i = In-set_branch_inv free leaves r rs i

  moved_same :
      (b : ℕ) (r q : Row)
      → r ≡ moved b leaves q
      → (r.hash ≡ q.hash) × (r.parent ≡ q.parent) × (r.height ≡ q.height) × (r.blob ≡ q.blob)
  moved_same b r q e = ground arith

  detached_pruned :
      (r q : Row)
      → In r rs
      → In q rs
      → (moved free leaves r).branch ≢ 0
      → ((s : Row) → In s rs → s.hash ≢ r.parent)
      → (moved free leaves q).branch ≡ 0
      → r.height ≤ q.height
  detached_pruned r q i j n u z =
      let stays : q.branch ≡ 0 = ground (arith, lt-get_free_branch_number q rs j) in
      elim (Bool-cases (r.branch == 0)) [
        | inr off ↦ tree.pruned r q i j (ground arith) u stays
        | inl on ↦ elim (Bool-cases (ltb q.height r.height)) [
          | inr above ↦ ground arith
          | inl below ↦
              let (s, k, f, b) = tree.linked r q i j (ground arith) (ground arith) in
              absurd (u s k f)
        ]
      ]

  pub detached-IsTree : IsTree codec detached
  unfolding decode
  detached-IsTree = record {
    keys = keys-detached free rs (λ q i. lt-get_free_branch_number q rs i) tree.keys;
    stored = λ r i.
        let (q, j, e) = of_row r i in
        let (blk, d) = tree.stored q j in (blk, ground (arith, moved_same free r q e));
    heights = λ r s i j f.
        let (q, k, e) = of_row r i in
        let (t, l, g) = of_row s j in
        ground (arith, moved_same free r q e, moved_same free s t g, tree.heights q t k l);
    linked = λ r s i j f l.
        let (q, k, e) = of_row r i in
        let (t, m, g) = of_row s j in
        let (u, n, v, w) =
          detached_link q t k m (ground arith)
            (ground (arith, moved_same free r q e, moved_same free s t g)) in
        (
          moved free leaves u,
          In-set_branch free leaves u rs n,
          ground (arith, moved_same free r q e),
          ground arith,
        );
    pruned = λ r s i j n u z.
        let (q, k, e) = of_row r i in
        let (t, m, g) = of_row s j in
        ground (
          arith,
          moved_same free r q e,
          moved_same free s t g,
          detached_pruned q t k m (ground arith)
              (λ x l f.
                u (moved free leaves x) (In-set_branch free leaves x rs l)
                  (ground (arith, moved_same free r q e)))
              (ground arith),
        );
  }

  -- On a well-formed table, and for a test that holds of every block above one of which it holds, the
  -- UPDATE of MarkAsTip returns if the new branch number fits int64_t, violates no constraint, and
  -- leaves a well-formed table: the main chain's blocks that pass the test go to the new branch.
  pub detach_where-IsTree :
      get_free_branch_number rs < i64_bound
      → (rs' : List Row) × (detach_where p rs ≡ some rs')
        × IsTree codec rs'
        × (rs' ≡ set_branch (get_free_branch_number rs) (λ r. on_branch 0 r && p r) rs)
  unfolding detach_where constrained
  detach_where-IsTree b = (detached, ground (arith, detached-IsTree.keys), detached-IsTree, refl)
