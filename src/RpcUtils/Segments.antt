-- ===== src/RpcUtils/Segments.antt =====
-- ParseRpcHeaders of src/rpcutils.cpp reads the text segment by segment.
use Prim.Native.Char.{Char, code}
use xayax.Prelude.{
  ℕ, ◌≡◌, ◌≢◌, refl, arith, String, Bool, true, false, ap, sym, subst, ◌∙◌, ℕ_discrete,
}
use xayax.RpcUtils.{Found, npos, found, behind_char, find}

abbrev pub first_of : String → Found → String
first_of s npos = s
first_of s (found a b) = a

abbrev pub before : Found → String
before npos = ""
before (found a b) = a

abbrev pub behind : Found → String
behind npos = ""
behind (found a b) = b

-- The semicolon behind a value, if the text has one.
abbrev pub ended : String → Found → Found
ended v npos = npos
ended v (found a b) = found v b

abbrev pub is_npos : Found → Bool
is_npos npos = true
is_npos (found a b) = false

-- What a text's first segment holds, against what the loop finds in the text.
abbrev pub Agree : Found → Found → Found → Type 0
Agree semi equal npos = (is_npos equal ≡ false) → (is_npos (find b';' (before equal)) ≡ false)
Agree semi equal (found k v) =
    (equal ≡ found k (behind equal))
    × (find b';' k ≡ npos)
    × (find b';' (behind equal) ≡ ended v semi)
    × (is_npos semi ≡ true → behind equal ≡ v)

pub find_here : (k : ℕ) (c : Char) (s : String) → code c ≡ k → find k (String.◌∷◌ c s) ≡ found "" s
unfolding find
find_here k c s e = ground arith

pub find_later :
    (k : ℕ) (c : Char) (s : String)
    → code c ≢ k
    → find k (String.◌∷◌ c s) ≡ behind_char c (find k s)
unfolding find
find_later k c s n = ground arith

semicolon-Agree :
    (c : Char) (s : String) (equal : Found)
    → code c ≡ b';'
    → Agree (found "" s) (behind_char c equal) npos
semicolon-Agree c s npos e = λ h. absurd (ground arith)
semicolon-Agree c s (found a b) e = λ h. ap is_npos (find_here b';' c a e)

equals-Agree :
    (c : Char) (s : String) (semi : Found)
    → code c ≡ b'='
    → find b';' s ≡ semi
    → Agree
        (behind_char c semi)
        (found "" s)
        (find b'=' (first_of (String.◌∷◌ c s) (behind_char c semi)))
unfolding find
equals-Agree c s npos e f =
    subst (Agree npos (found "" s)) (sym (find_here b'=' c s e)) (refl, refl, f, λ h. refl)
equals-Agree c s (found a b) e f =
    subst (Agree (found (String.◌∷◌ c a) b) (found "" s)) (sym (find_here b'=' c a e))
      (refl, refl, f, λ h. absurd (ground arith))

pub is_npos-behind_char : (c : Char) (o : Found) → is_npos (behind_char c o) ≡ is_npos o
is_npos-behind_char c npos = refl
is_npos-behind_char c (found a b) = refl

ended-behind_char : (v : String) (c : Char) (o : Found) → ended v (behind_char c o) ≡ ended v o
ended-behind_char v c npos = refl
ended-behind_char v c (found a b) = refl

first_of-behind_char :
    (c : Char) (s : String) (o : Found)
    → first_of (String.◌∷◌ c s) (behind_char c o) ≡ String.◌∷◌ c (first_of s o)
first_of-behind_char c s npos = refl
first_of-behind_char c s (found a b) = refl

other-Agree :
    (c : Char) (semi equal held : Found)
    → code c ≢ b';'
    → Agree semi equal held
    → Agree (behind_char c semi) (behind_char c equal) (behind_char c held)
other-Agree c semi npos npos n h = λ e. absurd (ground arith)
other-Agree c semi (found a b) npos n h =
    λ e. ap is_npos (find_later b';' c a n) ∙ is_npos-behind_char c (find b';' a) ∙ h refl
other-Agree c semi npos (found k v) n h = absurd (ground (arith, h.0))
other-Agree c semi (found a b) (found k v) n h =
    let (same_key, no_semicolon, rest, last) = h in
    (
      ap (λ x. found (String.◌∷◌ c (before x)) b) same_key,
      find_later b';' c k n ∙ ap (behind_char c) no_semicolon,
      rest ∙ sym (ended-behind_char v c semi),
      λ e. last (sym (is_npos-behind_char c semi) ∙ e),
    )

at_same_values :
    (semi equal held semi' equal' held' : Found)
    → semi ≡ semi'
    → equal ≡ equal'
    → held ≡ held'
    → Agree semi' equal' held'
    → Agree semi equal held
at_same_values semi equal held semi' equal' held' e f g h =
    subst (λ x. Agree x equal held) (sym e)
      (subst (λ x. Agree semi' x held) (sym f) (subst (λ x. Agree semi' equal' x) (sym g) h))

pub first-Agree :
    (s : String) → Agree (find b';' s) (find b'=' s) (find b'=' (first_of s (find b';' s)))
unfolding find
first-Agree String.[] = λ e. absurd (ground arith)
first-Agree (String.◌∷◌ c s) = cons_case c s (first-Agree s)
  where
    held_at : Char → String → Found → Found
    held_at c s o = find b'=' (first_of (String.◌∷◌ c s) o)

    cons_case :
        (c : Char) (s : String)
        → Agree (find b';' s) (find b'=' s) (find b'=' (first_of s (find b';' s)))
        → Agree
            (find b';' (String.◌∷◌ c s))
            (find b'=' (String.◌∷◌ c s))
            (held_at c s (find b';' (String.◌∷◌ c s)))
    cons_case c s h = elim (ℕ_discrete (code c) b';') [
      | yes e ↦
          at_same_values _ _ _ (found "" s) (behind_char c (find b'=' s)) npos
            (find_here b';' c s e) (find_later b'=' c s (λ f. absurd (omega arith)))
            (ap (held_at c s) (find_here b';' c s e)) (semicolon-Agree c s (find b'=' s) e)
      | no n ↦ elim (ℕ_discrete (code c) b'=') [
        | yes e ↦
            at_same_values _ _ _ (behind_char c (find b';' s)) (found "" s)
              (held_at c s (behind_char c (find b';' s))) (find_later b';' c s n)
              (find_here b'=' c s e) (ap (held_at c s) (find_later b';' c s n))
              (equals-Agree c s (find b';' s) e refl)
        | no m ↦
            at_same_values _ _ _ (behind_char c (find b';' s)) (behind_char c (find b'=' s))
              (behind_char c (find b'=' (first_of s (find b';' s)))) (find_later b';' c s n)
              (find_later b'=' c s m)
              (ap (held_at c s) (find_later b';' c s n)
                ∙ ap (find b'=') (first_of-behind_char c s (find b';' s))
                ∙ find_later b'=' c (first_of s (find b';' s)) m)
              (other-Agree c (find b';' s) (find b'=' s) (find b'=' (first_of s (find b';' s))) n h)
      ]
    ]
