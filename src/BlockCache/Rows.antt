-- ===== src/BlockCache/Rows.antt =====
-- The table of the MySQL storage, as src/cache/mysql.cpp describes it: rows in the order of their heights,
-- which are the primary key.
use xayax.Prelude.{
  ℕ, zero, suc, ◌+◌, ◌-◌, ◌≤◌, ◌≡◌, refl, String, List, [], ◌∷◌, arith, length, ltb, leb, ◌==◌,
  ◌&&◌, if◌then◌else◌,
}

-- REPLACE INTO
unfoldable pub replace_row : ℕ → String → List (ℕ × String) → List (ℕ × String)
replace_row h d [] = (h, d) ∷ []
replace_row h d ((k, c) ∷ m) =
    let rest = replace_row h d m in
    if h == k then (h, d) ∷ m else if ltb h k then (h, d) ∷ (k, c) ∷ m else (k, c) ∷ rest

-- SELECT `data` ... WHERE `height` >= a AND `height` < b ORDER BY `height` ASC
unfoldable pub data_between : ℕ → ℕ → List (ℕ × String) → List String
data_between a b [] = []
data_between a b ((k, d) ∷ m) =
    let rest = data_between a b m in if leb a k && ltb k b then d ∷ rest else rest

-- The heights ascend, from a bound on.
abbrev pub AscendsFrom : ℕ → List (ℕ × String) → Type 0
AscendsFrom lo [] = Unit {0}
AscendsFrom lo ((k, d) ∷ m) = (lo ≤ k) × AscendsFrom (suc k) m

pub replace_row-AscendsFrom :
    (lo h : ℕ) (d : String) (m : List (ℕ × String))
    → lo ≤ h
    → AscendsFrom lo m
    → AscendsFrom lo (replace_row h d m)
unfolding replace_row
replace_row-AscendsFrom lo h d [] l a = (l, tt)
replace_row-AscendsFrom lo h d ((k, c) ∷ m) l a =
    ground (arith, replace_row-AscendsFrom (suc k) h d m)

-- At most as many rows as there are heights in the range
between_length :
    (a b lo : ℕ) (m : List (ℕ × String)) → AscendsFrom lo m → length (data_between a b m) ≤ b - lo
unfolding data_between
between_length a b lo [] h = omega arith
between_length a b lo ((k, d) ∷ m) h = ground (arith, between_length a b (suc k) m h.1)

module _ (data_at : ℕ → String) where
  -- Every row has the data that belong to its height.
  abbrev pub HasData : List (ℕ × String) → Type 0
  HasData [] = Unit {0}
  HasData ((k, d) ∷ m) = (d ≡ data_at k) × HasData m

  abbrev pub data_slice : ℕ → ℕ → List String
  data_slice a zero = []
  data_slice a (suc n) = data_at a ∷ data_slice (suc a) n

  pub replace_row-HasData :
      (h : ℕ) (m : List (ℕ × String)) → HasData m → HasData (replace_row h (data_at h) m)
  unfolding replace_row
  replace_row-HasData h [] f = (refl, tt)
  replace_row-HasData h ((k, c) ∷ m) f = ground (arith, replace_row-HasData h m f.1)

  from_slice :
      (a b lo n : ℕ) (m : List (ℕ × String))
      → a ≤ lo
      → lo + n ≡ b
      → AscendsFrom lo m
      → HasData m
      → length (data_between a b m) ≡ n
      → data_between a b m ≡ data_slice lo n
  unfolding data_between
  from_slice a b lo zero [] l p h f e = refl
  from_slice a b lo (suc n) [] l p h f e = absurd (omega arith)
  from_slice a b lo zero ((k, d) ∷ m) l p h f e = ground (arith, from_slice a b lo zero m)
  from_slice a b lo (suc n) ((k, d) ∷ m) l p h f e =
      ground (arith, between_length a b (suc k) m h.1, from_slice a b (suc k) n m)

  -- If a selection has as many rows as the range has heights, it has the data of each height.
  pub between_slice :
      (a n lo : ℕ) (m : List (ℕ × String))
      → AscendsFrom lo m
      → HasData m
      → length (data_between a (a + n) m) ≡ n
      → data_between a (a + n) m ≡ data_slice a n
  unfolding data_between
  between_slice a n lo [] h f e = from_slice a (a + n) a n [] (omega arith) refl tt tt e
  between_slice a n lo ((k, d) ∷ m) h f e =
      ground (arith, between_slice a n (suc k) m h.1 f.1, from_slice a (a + n) a n ((k, d) ∷ m))
