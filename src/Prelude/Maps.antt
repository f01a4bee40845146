-- ===== src/Prelude/Maps.antt =====
-- std::map and std::unordered_map with texts for keys, as association lists in the order of iteration.
use Prim.Native.Nat.{Ordering}
use Prim.Native.String.{String, compare}
use mathlib.Core.List.{List, [], ◌∷◌}
use mathlib.Core.Logic.{ite}
use mathlib.Core.Option.{Option, none, some}
use mathlib.Core.Path.{◌≡◌, refl}
use native.Mathlib.Omega.{arith}
use text.Mathlib.TextEquality.{path_by_compare}
use xayax.Prelude.Texts.{str_discrete}

module _ {V : Type 0} where
  unfoldable pub lookup : String → List (String × V) → Option V
  lookup k [] = none
  lookup k ((j, v) ∷ m) = ite (str_discrete j k) (some v) (lookup k m)

  -- Overwrites the value of a key, or adds the key.
  unfoldable pub insert : String → V → List (String × V) → List (String × V)
  insert k v [] = (k, v) ∷ []
  insert k v ((j, w) ∷ m) = ite (str_discrete j k) ((k, v) ∷ m) ((j, w) ∷ insert k v m)

  unfoldable pub erase : String → List (String × V) → List (String × V)
  erase k [] = []
  erase k ((j, w) ∷ m) = ite (str_discrete j k) (erase k m) ((j, w) ∷ erase k m)

  pub lookup-insert :
      (k j : String) (v : V) (m : List (String × V))
      → lookup j (insert k v m) ≡ ite (str_discrete k j) (some v) (lookup j m)
  unfolding lookup insert
  lookup-insert k j v [] = refl
  lookup-insert k j v ((i, w) ∷ m) = ground (arith, lookup-insert k j v m)

  pub lookup-erase :
      (k j : String) (m : List (String × V))
      → lookup j (erase k m) ≡ ite (str_discrete k j) none (lookup j m)
  unfolding lookup erase
  lookup-erase k j [] = ground arith
  lookup-erase k j ((i, w) ∷ m) = ground (arith, lookup-erase k j m)

  -- std::map::emplace: the entry goes to its place in the order of the keys, unless the key is there.
  unfoldable pub emplace : String → V → List (String × V) → List (String × V)
  emplace k v [] = (k, v) ∷ []
  emplace k v ((j, w) ∷ m) = elim (compare k j) [
    | Ordering.lt ↦ (k, v) ∷ (j, w) ∷ m
    | Ordering.eq ↦ (j, w) ∷ m
    | Ordering.gt ↦ (j, w) ∷ emplace k v m
  ]

  -- A key that is not there yet.
  pub lookup-emplace :
      (k j : String) (v : V) (m : List (String × V))
      → lookup k m ≡ none
      → lookup j (emplace k v m) ≡ ite (str_discrete k j) (some v) (lookup j m)
  unfolding lookup emplace
  lookup-emplace k j v [] h = refl
  lookup-emplace k j v ((i, w) ∷ m) h = ground (arith, lookup-emplace k j v m, path_by_compare k i)
