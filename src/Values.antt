-- ===== src/Values.antt =====
-- What the blockchain clients use of jsoncpp's Json::Value and of C++'s double, which are not part of the
-- repository, and the answers of JSON-RPC calls.
use xayax.Prelude.{ℕ, ℤ, String, Bool, List, Option, none, some, ◌≡◌, refl}
use xayax.Prelude.Action.{Action, Post, done, threw, aborted, checked, ◌>>=◌}

-- `none` is the exception that jsoncpp throws for a value of another type.
pub record Values (Json Double : Type 0) : Type 0 where
  pub null : Json
  pub is_null : Json → Bool
  pub is_object : Json → Bool
  pub is_array : Json → Bool
  pub is_string : Json → Bool
  pub is_int64 : Json → Bool
  -- val["key"], which is null for a missing member
  pub at : String → Json → Option Json
  -- of an object
  pub is_member : String → Json → Bool
  -- for (const auto& entry : val)
  pub elements : Json → List Json
  pub as_string : Json → Option String
  pub as_uint64 : Json → Option ℕ
  pub as_int64 : Json → Option ℤ
  pub as_int : Json → Option ℤ
  pub as_double : Json → Option Double
  pub as_bool : Json → Option Bool
  pub empty_object : Json
  pub set : String → Json → Json → Json
  pub array : List Json → Json
  pub string : String → Json
  pub integer : ℤ → Json
  pub boolean : Bool → Json
  pub double : Double → Json
  pub zero_double : Double
  pub plus : Double → Double → Double

-- The answer of a JSON-RPC server: a result, or JsonRpcException with its code.
pub data Answer (A : Type 0) : Type 0 where
  answer : A → Answer A
  rpc_error : ℤ → Answer A

abbrev pub Call : Type 0 → Type 0 → Type 0
Call S A = Action S (Answer A)

module _ {S : Type 0} where
  -- A value that is there, or an exception.
  abbrev pub reading : {A : Type 0} → Option A → Action S A
  reading none s = threw s
  reading (some a) s = done a s

  -- A call whose JsonRpcException is not caught.
  abbrev pub called : {A : Type 0} → Call S A → Action S A
  called call s = elim (call s) [
    | done a s' ↦ elim a [ answer r ↦ done r s' | rpc_error c ↦ threw s' ]
    | threw s' ↦ threw s'
    | aborted ↦ aborted
  ]

  -- val["key"].asString (), and so on.
  abbrev pub field :
      {Json Double A : Type 0} → Values Json Double → (Json → Option A) → String → Json → Action S A
  field values read key val = reading (values.at key val) >>= λ v. reading (read v)

module _ {S A B : Type 0} (P : B → S → Type 0) (T : S → Type 0) (X : Type 0) where
  pub Post-reading :
      (o : Option A) (f : A → Action S B) (s : S)
      → T s
      → ((a : A) → o ≡ some a → Post P T X (f a s))
      → Post P T X ((reading o >>= f) s)
  Post-reading none f s t h = t
  Post-reading (some a) f s t h = h a refl

  pub Post-checked :
      (o : Option A) (f : A → Action S B) (s : S)
      → X
      → ((a : A) → o ≡ some a → Post P T X (f a s))
      → Post P T X ((checked o >>= f) s)
  Post-checked none f s x h = x
  Post-checked (some a) f s x h = h a refl
