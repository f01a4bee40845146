-- ===== src/Database/Owners.antt =====
-- Which objects own the statements of the cache.
use xayax.Prelude.{
  ℕ, zero, suc, ◌+◌, ◌≡◌, refl, String, List, [], ◌∷◌, ◌++◌, Option, none, some, ite, arith,
  if◌then◌else◌, length, get_elem?, set, get_elem?-set, get_elem?-set_self, inl, inr, Option-cases,
}
use text.Mathlib.TextEquality.{path_by_compare}
use xayax.Prelude.Texts.{str_discrete}
use xayax.Prelude.Maps.{lookup, insert, emplace, lookup-insert, lookup-emplace}
use xayax.Prelude.Action.{After, Post, After-bind}
use xayax.Database.{Sqlite, CachedStatement, Database, Statement, acquire, release, prepare}
use xayax.Database.Statements.{clear, modify, reading, step}
use xayax.Database.Objects.{Scope, destroy, move_assign, move_construct}

-- 1 if an object refers to the statement, and 0 if not
abbrev pub refers : String → Statement → ℕ
refers k none = 0
refers k (some j) = ite (str_discrete j k) 1 0

abbrev pub count : String → List Statement → ℕ
count k [] = 0
count k (v ∷ vs) = refers k v + count k vs

abbrev pub in_use : {Stmt : Type 0} → Option (CachedStatement Stmt) → ℕ
in_use none = 0
in_use (some e) = if e.used then 1 else 0

-- The keys of the cache are different.
abbrev pub IsDistinct : {Stmt : Type 0} → List (String × CachedStatement Stmt) → Type 0
IsDistinct [] = Unit {0}
IsDistinct ((k, e) ∷ m) = (lookup k m ≡ none) × IsDistinct m

module _ {Stmt : Type 0} (sql : String) (e : CachedStatement Stmt) where
  insert-IsDistinct :
      (m : List (String × CachedStatement Stmt)) → IsDistinct m → IsDistinct (insert sql e m)
  unfolding insert lookup
  insert-IsDistinct [] h = (refl, tt)
  insert-IsDistinct ((j, c) ∷ m) h =
      ground (arith, insert-IsDistinct m h.1, lookup-insert sql j e m)

  emplace-IsDistinct :
      (m : List (String × CachedStatement Stmt))
      → lookup sql m ≡ none
      → IsDistinct m
      → IsDistinct (emplace sql e m)
  unfolding emplace lookup
  emplace-IsDistinct [] h d = (refl, tt)
  emplace-IsDistinct ((j, c) ∷ m) h d =
      ground (arith, emplace-IsDistinct m, lookup-emplace sql j e m, path_by_compare sql j)

-- A statement that is in use is owned by one object, and no object refers to it otherwise.
abbrev pub HasOwner : {Conn Stmt : Type 0} → String → Scope Conn Stmt → Type 0
HasOwner k s = count k s.objects ≡ in_use (lookup k s.database.statements)

pub count-append :
    (k : String) (vs : List Statement) (v : Statement)
    → count k (vs ++ v ∷ []) ≡ count k vs + refers k v
count-append k [] v = omega arith
count-append k (w ∷ vs) v = omega (arith, count-append k vs v)

count-set :
    (k : String) (vs : List Statement) (i : ℕ) (v w : Statement)
    → get_elem? vs i ≡ some v
    → count k (set vs i w) + refers k v ≡ count k vs + refers k w
count-set k [] i v w h = cc
count-set k (x ∷ vs) zero v w h = ground arith
count-set k (x ∷ vs) (suc i) v w h = omega (arith, count-set k vs i v w h)

module _ {Conn Stmt : Type 0} (k : String) where
  -- A call after which an object refers to w in place of v, with what is in use before and after it.
  abbrev pub Shift : Database Conn Stmt → Statement → Statement → Database Conn Stmt → Type 0
  Shift d v w d' =
      (in_use (lookup k d'.statements) + refers k v ≡ in_use (lookup k d.statements) + refers k w)
      × (IsDistinct d.statements → IsDistinct d'.statements)

  module _ (sqlite : Sqlite Conn Stmt) where
    pub clear-Shift :
        (v : Statement) (d : Database Conn Stmt)
        → Post
            (λ w d'. (w ≡ none) × Shift d v none d')
            (λ _. Unit {0})
            (Unit {0})
            (clear sqlite v d)
    unfolding clear release
    clear-Shift none d = (refl, (refl, λ h. h))
    clear-Shift (some sql) d = grind (arith, lookup-insert, insert-IsDistinct)

    pub prepare-Shift :
        (sql : String) (d : Database Conn Stmt)
        → Post
            (λ v d'. (v ≡ some sql) × Shift d none v d')
            (λ _. Unit {0})
            (Unit {0})
            (prepare sqlite sql d)
    unfolding prepare acquire
    prepare-Shift sql d =
        grind (arith, lookup-insert, lookup-emplace, insert-IsDistinct, emplace-IsDistinct)

    pub modify-Shift :
        (v : Statement) (f : Stmt → Option Stmt) (d : Database Conn Stmt)
        → After (Shift d none none) (modify sqlite v f d)
    unfolding modify
    modify-Shift none f d = tt
    modify-Shift (some sql) f d = grind (arith, lookup-insert, insert-IsDistinct)

    pub step-Shift :
        (v : Statement) (d : Database Conn Stmt) → After (Shift d none none) (step sqlite v d)
    unfolding step
    step-Shift none d = tt
    step-Shift (some sql) d = grind (arith, lookup-insert, insert-IsDistinct)

    pub reading-Shift :
        {A : Type 0} (v : Statement) (f : Stmt → Option A) (d : Database Conn Stmt)
        → After (Shift d none none) (reading sqlite v f d)
    unfolding reading
    reading-Shift none f d = tt
    reading-Shift (some sql) f d = ground arith

-- What every call keeps.
pub record IsOwned {Conn Stmt : Type 0} (k : String) (s : Scope Conn Stmt) : Type 0 where
  pub owner : HasOwner k s
  pub distinct : IsDistinct s.database.statements

module _ {Conn Stmt : Type 0} (k : String) (sqlite : Sqlite Conn Stmt) where
  pub destroy-IsOwned :
      (i : ℕ) (s : Scope Conn Stmt)
      → IsOwned k s
      → After (λ s'. IsOwned k s' × (get_elem? s'.objects i ≡ some none)) (destroy sqlite i s)
  unfolding destroy
  destroy-IsOwned i s o = elim (Option-cases (get_elem? s.objects i)) [
    | inl e ↦ ground arith
    | inr (v, e) ↦ ground (
      arith,
      clear-Shift k sqlite v s.database,
      count-set k s.objects i v none,
      get_elem?-set_self s.objects i v none,
    )
  ]

  pub move_assign-IsOwned :
      (i j : ℕ) (s : Scope Conn Stmt) → IsOwned k s → After (IsOwned k) (move_assign sqlite i j s)
  unfolding move_assign
  move_assign-IsOwned i j s o =
      After-bind (λ s'. IsOwned k s' × (get_elem? s'.objects i ≡ some none)) (IsOwned k)
        (destroy sqlite i s) _ (destroy-IsOwned i s o)
        (λ _ s' h. elim (Option-cases (get_elem? s'.objects j)) [
          | inl e ↦ ground arith
          | inr (v, e) ↦ ground (
            arith,
            count-set k s'.objects i none v,
            count-set k (set s'.objects i v) j v none,
            get_elem?-set s'.objects i j v,
          )
        ])

  pub move_construct-IsOwned :
      (j : ℕ) (s : Scope Conn Stmt) → IsOwned k s → After (IsOwned k) (move_construct sqlite j s)
  unfolding move_construct
  move_construct-IsOwned j s o =
      move_assign-IsOwned (length s.objects) j (record s { objects = s.objects ++ none ∷ [] })
        (record {
          owner = omega (arith, o.owner, count-append k s.objects none);
          distinct = o.distinct;
        })
