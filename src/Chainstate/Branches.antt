-- ===== src/Chainstate/Branches.antt =====
-- The branches of the table of src/chainstate.cpp, and the lowest and the next rows of one.
use xayax.Prelude.{
  ℕ, ◌<◌, ◌≡◌, refl, arith, true, List, [], ◌∷◌, some, inl, inr, ltb, Bool-cases, All,
}
use xayax.Chainstate.Table.{Row, lowest, constraints_hold, clashes_any}
use xayax.Chainstate.Sanity.{occurs, distinct_branches}
use xayax.Chainstate.Members.{In, IsDescending, falls}

-- The lowest of some rows is one of them.
lowest-In : (q : Row) (rs : List Row) → (p : Row) × (lowest (q ∷ rs) ≡ some p) × In p (q ∷ rs)
unfolding lowest
lowest-In q [] = (q, refl, inl refl)
lowest-In q (r ∷ rs) =
    let (p, e, i) = lowest-In r rs in
    elim (Bool-cases (ltb p.height q.height)) [
      | inl lower ↦ (p, ground (arith, e), inr i)
      | inr higher ↦ (q, ground (arith, e), inl refl)
    ]

pub lowest_of : (r : Row) (rs : List Row) → In r rs → (p : Row) × (lowest rs ≡ some p) × In p rs
lowest_of r [] i = elim i [ ]
lowest_of r (q ∷ rs) i = lowest-In q rs

-- The rows of a branch behind the first have lower heights.
pub strictly_below :
    (r : Row) (l : List Row)
    → constraints_hold (r ∷ l) ≡ true
    → IsDescending (r ∷ l)
    → ((q : Row) → In q l → q.branch ≡ r.branch)
    → (q : Row) → In q l
    → q.height < r.height
unfolding constraints_hold clashes_any
strictly_below r [] c d o q i = elim i [ ]
strictly_below r (p ∷ l) c d o q (inl e) = rw e (falls r p l c d (o p (inl refl)))
strictly_below r (p ∷ l) c d o q (inr i) =
    strictly_below r l (ground arith) (d.0.1, d.1.1) (λ s j. o s (inr j)) q i

pub occurs-distinct_branches :
    (r : Row) (rs : List Row) → In r rs → occurs r.branch (distinct_branches rs) ≡ true
unfolding distinct_branches
occurs-distinct_branches r [] i = elim i [ ]
occurs-distinct_branches r (q ∷ rs) (inl e) = ground arith
occurs-distinct_branches r (q ∷ rs) (inr i) = ground (arith, occurs-distinct_branches r rs i)

pub distinct_branches-rows :
    (P : ℕ → Type 0) (rs : List Row)
    → ((r : Row) → In r rs → P r.branch)
    → All P (distinct_branches rs)
unfolding distinct_branches
distinct_branches-rows P [] h = tt
distinct_branches-rows P (r ∷ rs) h =
    let rest = distinct_branches-rows P rs (λ q i. h q (inr i)) in
    elim (Bool-cases (occurs r.branch (distinct_branches rs))) [
      | inl e ↦ rw e rest
      | inr e ↦ rw e (h r (inl refl), rest)
    ]
