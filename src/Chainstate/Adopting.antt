-- ===== src/Chainstate/Adopting.antt =====
-- The loop of MarkAsTip in src/chainstate.cpp that puts the blocks of a branch on the main chain.
use xayax.Prelude.{
  ℕ, ◌+◌, ◌≤◌, ◌<◌, String, ◌≡◌, ◌⊎◌, inl, inr, refl, arith, Bool, true, false, List, [], ◌∷◌, All,
  some, sym, ◌∙◌, ap, subst,
}
use xayax.BlockData.{BlockData, Codec}
use xayax.Chainstate.Table.{
  Row, has_hash, set_branch, clashes, clashes_any, constrained, constraints_hold,
}
use xayax.Chainstate.Members.{In}
use xayax.Chainstate.Ops.{adopt_all}
use xayax.Chainstate.Detaching.{moved, In-set_branch_inv}
use xayax.Chainstate.Tree.{IsTree}
use xayax.Chainstate.Segments.{PathTo, Stands-fields}
use xayax.Chainstate.Paths.{is_among, first_of_path}
use xayax.Chainstate.Heights.{path_lt}

-- Where two rows come to the branch b at one height, they have one hash.
abbrev Fits : ℕ → (Row → Bool) → Row → Row → Type 0
Fits b p q r = p r ≡ true → (q.branch ≡ b) ⊎ (p q ≡ true) → q.height ≡ r.height → q.hash ≡ r.hash

clashes-moved :
    (b : ℕ) (p : Row → Bool) (q r : Row)
    → Fits b p q r
    → Fits b p r q
    → clashes q r ≡ false
    → clashes (moved b p q) (moved b p r) ≡ false
clashes-moved b p q r f g c = ground (arith, f, g)

clashes_any-set_branch :
    (b : ℕ) (p : Row → Bool) (r : Row) (qs : List Row)
    → ((q : Row) → In q qs → Fits b p q r × Fits b p r q)
    → clashes_any r qs ≡ false
    → clashes_any (moved b p r) (set_branch b p qs) ≡ false
unfolding clashes_any set_branch
clashes_any-set_branch b p r [] f c = refl
clashes_any-set_branch b p r (q ∷ qs) f c = ground (
  arith,
  clashes-moved b p q r (f q (inl refl)).0 (f q (inl refl)).1,
  clashes_any-set_branch b p r qs (λ s i. f s (inr i)),
)

constraints_hold-set_branch :
    (b : ℕ) (p : Row → Bool) (qs : List Row)
    → ((q r : Row) → In q qs → In r qs → Fits b p q r)
    → constraints_hold qs ≡ true
    → constraints_hold (set_branch b p qs) ≡ true
unfolding constraints_hold set_branch
constraints_hold-set_branch b p [] f c = refl
constraints_hold-set_branch b p (r ∷ qs) f c = ground (
  arith,
  clashes_any-set_branch b p r qs (λ q i. (f q r (inr i) (inl refl), f r q (inl refl) (inr i))),
  constraints_hold-set_branch b p qs (λ q s i j. f q s (inr i) (inr j)),
)

-- The heights of the blocks fall, and are taken by no other row of the main chain.
abbrev pub AreFree : {Json : Type 0} → List (BlockData Json) → List Row → Type 0
AreFree [] rs = Unit {0}
AreFree (d ∷ ds) rs =
    ((q : Row) → In q rs → q.branch ≡ 0 → q.height ≡ d.height → q.hash ≡ d.hash)
    × ((q : Row) → In q rs → q.hash ≡ d.hash → q.height ≡ d.height)
    × All (λ x. x.height + 1 ≤ d.height) ds
    × AreFree ds rs

module _ {Json : Type 0} where
  AreFree-set_branch :
      (d : BlockData Json) (ds : List (BlockData Json)) (rs : List Row)
      → ((q : Row) → In q rs → q.hash ≡ d.hash → q.height ≡ d.height)
      → All (λ x. x.height + 1 ≤ d.height) ds
      → AreFree ds rs
      → AreFree ds (set_branch 0 (has_hash d.hash) rs)
  AreFree-set_branch d [] rs h a f = tt
  AreFree-set_branch d (x ∷ ds) rs h (l, a) (f, g, m, k) = (
    (λ q i z e.
        let (s, j, w) = In-set_branch_inv 0 (has_hash d.hash) q rs i in
        ground (arith, f s j, h s j)),
    (λ q i e.
        let (s, j, w) = In-set_branch_inv 0 (has_hash d.hash) q rs i in ground (arith, g s j)),
    m,
    AreFree-set_branch d ds rs h a k,
  )

  set_branch_twice :
      (d : BlockData Json) (ds : List (BlockData Json)) (rs : List Row)
      → set_branch 0 (is_among ds) (set_branch 0 (has_hash d.hash) rs)
        ≡ set_branch 0 (is_among (d ∷ ds)) rs
  unfolding set_branch is_among
  set_branch_twice d ds [] = refl
  set_branch_twice d ds (r ∷ rs) = ground (arith, set_branch_twice d ds rs)

  set_branch_none :
      (codec : Codec Json) (rs : List Row) → set_branch 0 (is_among {Json = Json} []) rs ≡ rs
  unfolding set_branch is_among
  set_branch_none codec [] = refl
  set_branch_none codec (r ∷ rs) = ap (◌∷◌ r) (set_branch_none codec rs)

  adopt_step :
      (codec : Codec Json) (d : BlockData Json) (ds : List (BlockData Json)) (rs : List Row)
      → constraints_hold (set_branch 0 (has_hash d.hash) rs) ≡ true
      → adopt_all codec (d ∷ ds) rs ≡ adopt_all codec ds (set_branch 0 (has_hash d.hash) rs)
  unfolding adopt_all constrained
  adopt_step codec d ds rs k = ground arith

  -- The updates of the single blocks violate no constraint and amount to one update of all.
  pub adopt_all-set_branch :
      (codec : Codec Json) (ds : List (BlockData Json)) (rs : List Row)
      → constraints_hold rs ≡ true
      → AreFree ds rs
      → (adopt_all codec ds rs ≡ some (set_branch 0 (is_among ds) rs))
        × (constraints_hold (set_branch 0 (is_among ds) rs) ≡ true)
  unfolding adopt_all
  adopt_all-set_branch codec [] rs k f =
      (ap some (sym (set_branch_none codec rs)), rw (set_branch_none codec rs) k)
  adopt_all-set_branch codec (d ∷ ds) rs k (f, g, a, m) =
      let k' =
        constraints_hold-set_branch 0 (has_hash d.hash) rs
          (λ q r i j p o e. ground (arith, f q i, g r j)) k in
      let ih =
        adopt_all-set_branch codec ds (set_branch 0 (has_hash d.hash) rs) k'
          (AreFree-set_branch d ds rs g a m) in
      (
        adopt_step codec d ds rs k' ∙ ih.0 ∙ ap some (set_branch_twice d ds rs),
        subst (λ x. constraints_hold x ≡ true) (set_branch_twice d ds rs) ih.1,
      )

module _ {Json : Type 0} (codec : Codec Json) (rs : List Row) (tree : IsTree codec rs)
    (l : List Row) (low : ℕ) (below : (q : Row) → In q l → q.branch ≡ 0 → q.height < low)
    (alike : (q : Row)
      → In q l
      → (r : Row) × In r rs × (q.hash ≡ r.hash) × (q.height ≡ r.height)) where
  -- A path that goes down to a height has room on a main chain that ends below.
  pub path-AreFree :
      (cur : String) (bs : List (BlockData Json))
      → PathTo codec rs tree cur bs
      → All (λ x. low ≤ x.height) bs
      → AreFree bs l
  path-AreFree cur [] path h = tt
  path-AreFree cur (b ∷ bs) ((s, k, g, n, st), path) (h, rest) = (
    (λ q i m f. absurd (ground (arith, below q i m))),
    (λ q i f.
        let (r, j, u, v) = alike q i in
        ground (
          arith,
          first_of_path codec rs tree cur b s r (k, g, n, st) j,
          Stands-fields codec rs tree s b st,
        )),
    path_lt codec rs tree cur b bs ((s, k, g, n, st), path),
    path-AreFree b.parent bs path rest,
  )
