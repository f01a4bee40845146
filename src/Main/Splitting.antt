-- ===== src/Main/Splitting.antt =====
-- AddWatchedContracts adds the addresses between the commas.
use Prim.Native.Char.{Char, code}
use Prim.Native.String.{count}
use Prim.Native.String.count
use mathlib.Core.Path.{fun_ext}
use xayax.Prelude.{
  ℕ, zero, suc, ◌<◌, ◌≡◌, refl, sym, ap, String, false, List, [], ◌∷◌, arith, ◌==◌, if◌then◌else◌,
  inl, inr, Bool-cases,
}
use xayax.Prelude.Texts.{is_empty}
use xayax.Prelude.Action.{Action, ◌>>◌, pure, bind, bind-done}
use xayax.RpcUtils.{Found, find, npos, found, behind_char}
use xayax.Main.Watching.{watch_from, add_watched_contracts}

abbrev onto_first : Char → List String → List String
onto_first c [] = []
onto_first c (s ∷ ss) = String.◌∷◌ c s ∷ ss

-- The texts between the occurrences of a character.
unfoldable pub split : ℕ → String → List String
split k String.[] = "" ∷ []
split k (String.◌∷◌ c s) =
    let rest = split k s in if code c == k then "" ∷ rest else onto_first c rest

-- What the search for the character says of the split.
abbrev Parts : ℕ → String → Found → Type 0
Parts k s npos = split k s ≡ s ∷ []
Parts k s (found a b) = (split k s ≡ a ∷ split k b) × (count b < count s)

cons-Parts :
    (k : ℕ) (c : Char) (s : String) (o : Found)
    → (code c == k) ≡ false
    → Parts k s o
    → Parts k (String.◌∷◌ c s) (behind_char c o)
unfolding split
cons-Parts k c s npos n h = ground arith
cons-Parts k c s (found a b) n h = (ground arith, omega (arith, count.cons c s, h.1))

split-find : (k : ℕ) (s : String) → Parts k s (find k s)
unfolding split find
split-find k String.[] = refl
split-find k (String.◌∷◌ c s) = elim (Bool-cases (code c == k)) [
  | inl e ↦ rw e (ground arith, omega (arith, count.cons c s))
  | inr n ↦ rw n (cons-Parts k c s (find k s) n (split-find k s))
]

module _ {World : Type 0} (add_watched_contract : String → Action World (Unit {0})) where
  -- One call for each text, in order.
  abbrev pub add_each : List String → Action World (Unit {0})
  add_each [] = pure tt
  add_each (a ∷ bs) = add_watched_contract a >> add_each bs

  at-Parts :
      (fuel : ℕ) (lst : String) (w : World) (o : Found)
      → find b',' lst ≡ o
      → Parts b',' lst o
      → ((b : String) (w' : World)
          → count b < count lst
          → watch_from add_watched_contract fuel b w' ≡ add_each (split b',' b) w')
      → watch_from add_watched_contract (suc fuel) lst w ≡ add_each (split b',' lst) w
  unfolding watch_from
  at-Parts fuel lst w npos e p ih =
      rw (p, watch_from, e) (sym (bind-done (add_watched_contract lst w)))
  at-Parts fuel lst w (found a b) e p ih =
      rw (p.0, watch_from, e)
        (ap (bind (add_watched_contract a w)) (fun_ext λ _. fun_ext λ w'. ih b w' p.1))

  watch_from-split :
      (fuel : ℕ) (lst : String) (w : World)
      → count lst < fuel
      → watch_from add_watched_contract fuel lst w ≡ add_each (split b',' lst) w
  watch_from-split zero lst w h = absurd (omega arith)
  watch_from-split (suc fuel) lst w h =
      at-Parts fuel lst w (find b',' lst) refl (split-find b',' lst)
        (λ b w' l. watch_from-split fuel b w' (omega arith))

  -- For every list that is not empty, AddWatchedContracts returns what adding the texts between its commas,
  -- one by one from the left, returns.
  pub add_watched_contracts-split :
      (lst : String) (w : World)
      → is_empty lst ≡ false
      → add_watched_contracts add_watched_contract lst w ≡ add_each (split b',' lst) w
  unfolding add_watched_contracts
  add_watched_contracts-split lst w h = ground (arith, watch_from-split (suc (count lst)) lst w)
