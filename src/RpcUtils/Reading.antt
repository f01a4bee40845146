-- ===== src/RpcUtils/Reading.antt =====
-- ParseRpcHeaders of src/rpcutils.cpp against a reading of the text split at the semicolons.
use Prim.Native.Char.{Char, code}
use Prim.Native.String.{count}
use Prim.Native.String.count
use xayax.Prelude.{
  ℕ, zero, suc, ◌<◌, ◌≡◌, ◌≢◌, ◌⊎◌, inl, inr, refl, arith, String, false, List, [], ◌∷◌, some, ◌==◌,
  if◌then◌else◌, ap, sym, subst, ◌∙◌, ℕ_discrete,
}
use xayax.Prelude.Texts.{str_discrete}
use xayax.Prelude.Maps.{emplace}
use xayax.RpcUtils.{Found, npos, found, behind_char, find, parse_from, parse_rpc_headers}
use xayax.RpcUtils.Segments.{
  first_of, before, behind, is_npos, Agree, find_here, find_later, first-Agree, is_npos-behind_char,
}

abbrev push_char : Char → List String → List String
push_char c [] = (String.◌∷◌ c "") ∷ []
push_char c (x ∷ xs) = String.◌∷◌ c x ∷ xs

-- The text split at the semicolons.
unfoldable pub segments : String → List String
segments String.[] = "" ∷ []
segments (String.◌∷◌ c s) =
    let rest = segments s in if code c == b';' then "" ∷ rest else push_char c rest

-- Reads "key=value" from each segment, up to the first that has no equals sign; the first value of a
-- key stays.
unfoldable pub read_segments : List String → List (String × String) → List (String × String)
unfolding find emplace
read_segments [] res = res
read_segments (segment ∷ rest) res = elim (find b'=' segment) [
  | npos ↦ res
  | found key value ↦ read_segments rest (emplace key value res)
]

abbrev split_up : String → Found → List String
split_up s npos = s ∷ []
split_up s (found a b) = a ∷ segments b

push_char-split_up :
    (c : Char) (s : String) (o : Found)
    → push_char c (split_up s o) ≡ split_up (String.◌∷◌ c s) (behind_char c o)
push_char-split_up c s npos = refl
push_char-split_up c s (found a b) = refl

segments_here :
    (c : Char) (s : String) → code c ≡ b';' → segments (String.◌∷◌ c s) ≡ "" ∷ segments s
unfolding segments
segments_here c s e = ground arith

segments_later :
    (c : Char) (s : String) → code c ≢ b';' → segments (String.◌∷◌ c s) ≡ push_char c (segments s)
unfolding segments
segments_later c s n = ground arith

segments-split_up : (s : String) → segments s ≡ split_up s (find b';' s)
unfolding segments find
segments-split_up String.[] = refl
segments-split_up (String.◌∷◌ c s) = elim (ℕ_discrete (code c) b';') [
  | yes e ↦ segments_here c s e ∙ ap (split_up (String.◌∷◌ c s)) (sym (find_here b';' c s e))
  | no n ↦
      segments_later c s n
      ∙ ap (push_char c) (segments-split_up s)
      ∙ push_char-split_up c s (find b';' s)
      ∙ ap (split_up (String.◌∷◌ c s)) (sym (find_later b';' c s n))
]

Found-cases : (o : Found) → (o ≡ npos) ⊎ ((a : String) × (b : String) × (o ≡ found a b))
Found-cases npos = inl refl
Found-cases (found a b) = inr (a, b, refl)

behind-behind_char : (c : Char) (o : Found) → behind (behind_char c o) ≡ behind o
behind-behind_char c npos = refl
behind-behind_char c (found a b) = refl

count-behind :
    (k : ℕ) (s : String) → is_npos (find k s) ≡ false → count (behind (find k s)) < count s
unfolding find
count-behind k String.[] h = absurd (ground arith)
count-behind k (String.◌∷◌ c s) h = elim (ℕ_discrete (code c) k) [
  | yes e ↦ omega (arith, ap (λ o. count (behind o)) (find_here k c s e), count.cons c s)
  | no n ↦ omega (
    arith,
    ap (λ o. count (behind o)) (find_later k c s n),
    ap count (behind-behind_char c (find k s)),
    count-behind k s
        (sym (is_npos-behind_char c (find k s)) ∙ ap is_npos (sym (find_later k c s n)) ∙ h),
    count.cons c s,
  )
]

abbrev after_first : Found → List String
after_first npos = []
after_first (found a b) = segments b

-- Reads the value of the first segment, and then the others.
read_first :
    (s : String) (o : Found) (res : List (String × String))
    → read_segments (split_up s o) res ≡ elim (find b'=' (first_of s o)) [
      | npos ↦ res
      | found key value ↦ read_segments (after_first o) (emplace key value res)
    ]
unfolding read_segments
read_first s npos res = refl
read_first s (found a b) res = refl

first_read :
    (s : String) (res : List (String × String)) (o : Found)
    → find b'=' (first_of s (find b';' s)) ≡ o
    → read_segments (segments s) res ≡ elim o [
      | npos ↦ res
      | found key value ↦ read_segments (after_first (find b';' s)) (emplace key value res)
    ]
first_read s res o e =
    ap (λ x. read_segments x res) (segments-split_up s)
    ∙ read_first s (find b';' s) res
    ∙ ap
        (λ x. elim x [
          | npos ↦ res
          | found key value ↦ read_segments (after_first (find b';' s)) (emplace key value res)
        ])
        e

parse_from_stops :
    (fuel : ℕ) (s : String) (res : List (String × String))
    → Agree (find b';' s) (find b'=' s) npos
    → parse_from (suc fuel) s res ≡ some res
unfolding parse_from
parse_from_stops fuel s res h = elim (Found-cases (find b'=' s)) [
  | inl e ↦ ground arith
  | inr (a, b, e) ↦
      let later : is_npos (find b';' a) ≡ false =
        subst (λ o. is_npos o ≡ false → is_npos (find b';' (before o)) ≡ false) e h refl in
      ground (arith, later)
]

parse_from_goes_on :
    (fuel : ℕ) (s key value : String) (res : List (String × String))
    → Agree (find b';' s) (find b'=' s) (found key value)
    → ((rest : String)
        → count rest < count s
        → parse_from fuel rest (emplace key value res)
          ≡ some (read_segments (segments rest) (emplace key value res)))
    → parse_from (suc fuel) s res
      ≡ some (read_segments (after_first (find b';' s)) (emplace key value res))
unfolding parse_from read_segments
parse_from_goes_on fuel s key value res h rec =
    let (g, i, j, k) = h in
    elim (Found-cases (find b';' s)) [
      | inl m ↦ ground (arith, k (ap is_npos m))
      | inr (a, b, m) ↦ ground (
        arith,
        rec b (omega (arith, ap (λ o. count (behind o)) m, count-behind b';' s (ap is_npos m))),
      )
    ]

pub parse_from-read_segments :
    (fuel : ℕ) (s : String) (res : List (String × String))
    → count s < fuel
    → parse_from fuel s res ≡ some (read_segments (segments s) res)
parse_from-read_segments zero s res h = absurd (omega arith)
parse_from-read_segments (suc fuel) s res h =
    elim (Found-cases (find b'=' (first_of s (find b';' s)))) [
      | inl e ↦
          parse_from_stops fuel s res (subst (Agree (find b';' s) (find b'=' s)) e (first-Agree s))
          ∙ ap some (sym (first_read s res _ e))
      | inr (key, value, e) ↦
          parse_from_goes_on fuel s key value res
            (subst (Agree (find b';' s) (find b'=' s)) e (first-Agree s))
            (λ rest l. parse_from-read_segments fuel rest (emplace key value res) (omega arith))
          ∙ ap some (sym (first_read s res _ e))
    ]

parse_empty : parse_rpc_headers "" ≡ some (read_segments (segments "") [])
unfolding parse_rpc_headers segments read_segments find str_discrete
parse_empty = refl

-- ParseRpcHeaders returns for every text, and what it returns is what is read from the text split at
-- the semicolons, segment by segment.
pub parse_rpc_headers-read_segments :
    (str : String) → parse_rpc_headers str ≡ some (read_segments (segments str) [])
unfolding parse_rpc_headers
parse_rpc_headers-read_segments str = elim (str_discrete str "") [
  | yes e ↦
      subst (λ x. parse_rpc_headers x ≡ some (read_segments (segments x) [])) (sym e) parse_empty
  | no n ↦ ground (arith, parse_from-read_segments (suc (count str)) str [] (omega arith))
]
