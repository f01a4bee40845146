-- ===== src/Chainstate/Members.antt =====
-- The rows of the table as a set, and the queries of src/chainstate.cpp in terms of it.
use xayax.Prelude.{
  ℕ, ◌≤◌, ◌<◌, ◌≡◌, ◌≢◌, ◌↔◌, subst, ◌⊎◌, inl, inr, refl, sym, ◌∙◌, arith, String, Bool, true,
  false, ◌||◌, List, [], ◌∷◌, Option, none, some, select,
}
use xayax.Chainstate.Table.{
  Row, has_hash, clashes, clashes_any, constraints_hold, only, insert_desc, order_desc,
}
use xayax.Chainstate.Fork.{top}

abbrev pub In : Row → List Row → Type 0
In r [] = ⊥
In r (q ∷ qs) = (r ≡ q) ⊎ In r qs

pub In-select :
    (p : Row → Bool) (r : Row) (rs : List Row) → In r rs → p r ≡ true → In r (select p rs)
In-select p r [] i h = elim i [ ]
In-select p r (q ∷ qs) (inl e) h = ground arith
In-select p r (q ∷ qs) (inr i) h = ground (arith, In-select p r qs i h)

pub In-select_inv :
    (p : Row → Bool) (r : Row) (rs : List Row) → In r (select p rs) → In r rs × (p r ≡ true)
In-select_inv p r [] i = elim i [ ]
In-select_inv p r (q ∷ qs) i = ground (arith, In-select_inv p r qs)

not-clashes_any :
    (r q : Row) (qs : List Row) → clashes_any r qs ≡ false → In q qs → clashes q r ≡ false
unfolding clashes_any
not-clashes_any r q [] h i = elim i [ ]
not-clashes_any r q (p ∷ ps) h (inl e) = ground arith
not-clashes_any r q (p ∷ ps) h (inr i) = ground (arith, not-clashes_any r q ps)

-- Two rows with one hash, or with one branch and height, are the same.
pub same_row :
    (r q : Row) (rs : List Row)
    → constraints_hold rs ≡ true
    → In r rs
    → In q rs
    → (r.hash ≡ q.hash) ⊎ ((r.branch ≡ q.branch) × (r.height ≡ q.height))
    → r ≡ q
unfolding constraints_hold
same_row r q [] c i j h = elim i [ ]
same_row r q (p ∷ ps) c (inl e) (inl f) h = e ∙ sym f
same_row r q (p ∷ ps) c (inl e) (inr j) h = absurd (ground (arith, not-clashes_any p q ps))
same_row r q (p ∷ ps) c (inr i) (inl f) h = absurd (ground (arith, not-clashes_any p r ps))
same_row r q (p ∷ ps) c (inr i) (inr j) h = same_row r q ps (ground arith) i j h

-- What a query by hash finds: nothing, if no row has the hash, and else the row.
abbrev pub Finds : String → List Row → Option (Option Row) → Type 0
Finds h rs found =
    ((found ≡ some none) × ((p : Row) → In p rs → p.hash ≢ h))
    ⊎ ((r : Row) × (found ≡ some (some r)) × In r rs × (r.hash ≡ h))

at_most_one :
    (h : String) (l : List Row)
    → ((p : Row) → In p l → p.hash ≡ h)
    → constraints_hold l ≡ true
    → (l ≡ []) ⊎ ((r : Row) × (l ≡ r ∷ []))
unfolding constraints_hold clashes_any
at_most_one h [] i k = inl refl
at_most_one h (r ∷ []) i k = inr (r, refl)
at_most_one h (r ∷ q ∷ l) i k = absurd (ground (arith, i r (inl refl), i q (inr (inl refl))))

clashes_any-select :
    (p : Row → Bool) (r : Row) (rs : List Row)
    → clashes_any r rs ≡ false
    → clashes_any r (select p rs) ≡ false
unfolding clashes_any
clashes_any-select p r [] h = refl
clashes_any-select p r (q ∷ qs) h = ground (arith, clashes_any-select p r qs)

pub constraints_hold-select :
    (p : Row → Bool) (rs : List Row)
    → constraints_hold rs ≡ true
    → constraints_hold (select p rs) ≡ true
unfolding constraints_hold
constraints_hold-select p [] h = refl
constraints_hold-select p (r ∷ rs) h =
    ground (arith, constraints_hold-select p rs, clashes_any-select p r rs)

pub query-Finds :
    (h : String) (rs : List Row)
    → constraints_hold rs ≡ true
    → Finds h rs (only (select (has_hash h) rs))
query-Finds h rs c =
    elim (at_most_one h (select (has_hash h) rs) hashes
      (constraints_hold-select (has_hash h) rs c)) [
        | inl e ↦
            inl (rw e, (λ p i n. subst (In p) e (In-select (has_hash h) p rs i (ground arith))))
        | inr (r, e) ↦
            let found = In-select_inv (has_hash h) r rs (subst (In r) (sym e) (inl refl)) in
            inr (r, rw e, found.0, ground arith)
      ]
  where
    hashes : (p : Row) → In p (select (has_hash h) rs) → p.hash ≡ h
    hashes p i = ground (arith, In-select_inv (has_hash h) p rs i)

-- Order by height changes no row.
In-insert_desc : (q r : Row) (rs : List Row) → In q (insert_desc r rs) ↔ ((q ≡ r) ⊎ In q rs)
unfolding insert_desc
In-insert_desc q r [] = ground arith
In-insert_desc q r (p ∷ ps) = ground (arith, In-insert_desc q r ps)

pub In-order_desc : (q : Row) (rs : List Row) → In q (order_desc rs) ↔ In q rs
unfolding order_desc
In-order_desc q [] = ground arith
In-order_desc q (r ∷ rs) = ground (arith, In-order_desc q rs, In-insert_desc q r (order_desc rs))

-- No row lies above its predecessors.
abbrev pub AllBelow : ℕ → List Row → Type 0
AllBelow h [] = Unit {0}
AllBelow h (r ∷ rs) = (r.height ≤ h) × AllBelow h rs

abbrev pub IsDescending : List Row → Type 0
IsDescending [] = Unit {0}
IsDescending (r ∷ rs) = AllBelow r.height rs × IsDescending rs

AllBelow-mono : (h k : ℕ) (rs : List Row) → h ≤ k → AllBelow h rs → AllBelow k rs
AllBelow-mono h k [] l b = tt
AllBelow-mono h k (r ∷ rs) l b = (omega arith, AllBelow-mono h k rs l b.1)

insert_desc-AllBelow :
    (h : ℕ) (r : Row) (rs : List Row) → r.height ≤ h → AllBelow h rs → AllBelow h (insert_desc r rs)
unfolding insert_desc
insert_desc-AllBelow h r [] l b = ground arith
insert_desc-AllBelow h r (q ∷ qs) l b = ground (arith, insert_desc-AllBelow h r qs)

insert_desc-IsDescending :
    (r : Row) (rs : List Row) → IsDescending rs → IsDescending (insert_desc r rs)
unfolding insert_desc
insert_desc-IsDescending r [] d = ground arith
insert_desc-IsDescending r (q ∷ qs) d = ground (
  arith,
  insert_desc-IsDescending r qs,
  insert_desc-AllBelow q.height r qs,
  AllBelow-mono q.height r.height qs,
)

pub order_desc-IsDescending : (rs : List Row) → IsDescending (order_desc rs)
unfolding order_desc
order_desc-IsDescending [] = tt
order_desc-IsDescending (r ∷ rs) =
    insert_desc-IsDescending r (order_desc rs) (order_desc-IsDescending rs)

pub le_of_AllBelow : (h : ℕ) (r : Row) (rs : List Row) → AllBelow h rs → In r rs → r.height ≤ h
le_of_AllBelow h r [] b i = elim i [ ]
le_of_AllBelow h r (q ∷ qs) b (inl e) = ground arith
le_of_AllBelow h r (q ∷ qs) b (inr i) = le_of_AllBelow h r qs b.1 i

pub le-top : (r : Row) (rs : List Row) → In r rs → r.height ≤ top rs
unfolding top
le-top r [] i = elim i [ ]
le-top r (q ∷ qs) (inl e) = ground arith
le-top r (q ∷ qs) (inr i) = omega (arith, le-top r qs i)

clashes_any-insert_desc :
    (r q : Row) (rs : List Row)
    → clashes_any r (insert_desc q rs) ≡ (clashes q r || clashes_any r rs)
unfolding insert_desc clashes_any
clashes_any-insert_desc r q [] = refl
clashes_any-insert_desc r q (p ∷ ps) = ground (arith, clashes_any-insert_desc r q ps)

insert_desc-keys :
    (r : Row) (rs : List Row)
    → constraints_hold (r ∷ rs) ≡ true
    → constraints_hold (insert_desc r rs) ≡ true
unfolding insert_desc constraints_hold
insert_desc-keys r [] h = ground arith
insert_desc-keys r (q ∷ qs) h =
    ground (arith, insert_desc-keys r qs, clashes_any-insert_desc q r qs)

clashes_any-order_desc :
    (r : Row) (rs : List Row) → clashes_any r (order_desc rs) ≡ clashes_any r rs
unfolding order_desc clashes_any
clashes_any-order_desc r [] = refl
clashes_any-order_desc r (q ∷ qs) =
    ground (arith, clashes_any-insert_desc r q (order_desc qs), clashes_any-order_desc r qs)

pub constraints_hold-order_desc :
    (rs : List Row) → constraints_hold rs ≡ true → constraints_hold (order_desc rs) ≡ true
unfolding order_desc constraints_hold
constraints_hold-order_desc [] h = h
constraints_hold-order_desc (r ∷ rs) h =
    insert_desc-keys r (order_desc rs)
      (ground (arith, constraints_hold-order_desc rs, clashes_any-order_desc r rs))

-- The first two rows of one branch in descending order have falling heights.
pub falls :
    (r q : Row) (rs : List Row)
    → constraints_hold (r ∷ q ∷ rs) ≡ true
    → IsDescending (r ∷ q ∷ rs)
    → q.branch ≡ r.branch
    → q.height < r.height
unfolding constraints_hold clashes_any
falls r q rs c d e = ground arith

pub constraints_hold-tail :
    (r : Row) (rs : List Row) → constraints_hold (r ∷ rs) ≡ true → constraints_hold rs ≡ true
unfolding constraints_hold
constraints_hold-tail r rs c = ground arith
