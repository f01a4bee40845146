-- ===== src/Prelude/Action.antt =====
-- Stateful code: a call returns a value and the new state, throws an exception and leaves a state
-- behind, or aborts the process (a failed CHECK, LOG (FATAL)).
use mathlib.Core.Bool.{Bool, true, false}
use mathlib.Core.Option.{Option, none, some}
use mathlib.Core.Path.{◌≡◌, refl}
use xayax.Prelude.Numbers.{if◌then◌else◌}

pub data Outcome {ℓ} (S : Type ℓ) (A : Type ℓ) : Type ℓ where
  done : A → S → Outcome S A
  threw : S → Outcome S A
  aborted : Outcome S A

abbrev pub Action : Type 0 → Type 0 → Type 0
Action S A = S → Outcome S A

module _ {S : Type 0} where
  infixl 5 ◌>>=◌ ◌>>◌
  abbrev pub ◌>>=◌ : {A B : Type 0} → Action S A → (A → Action S B) → Action S B
  ◌>>=◌ m f s = elim (m s) [ done a s' ↦ f a s' | threw s' ↦ threw s' | aborted ↦ aborted ]

  abbrev pub ◌>>◌ : {B : Type 0} → Action S (Unit {0}) → Action S B → Action S B
  m >> k = m >>= λ _. k

  abbrev pub pure : {A : Type 0} → A → Action S A
  pure a s = done a s

  abbrev pub abort : {A : Type 0} → Action S A
  abort s = aborted

  abbrev pub throw : {A : Type 0} → Action S A
  throw s = threw s

  abbrev pub get : Action S S
  get s = done s s

  abbrev pub put : S → Action S (Unit {0})
  put s' s = done tt s'

  -- CHECK (b)
  abbrev pub check : Bool → Action S (Unit {0})
  check true s = done tt s
  check false s = aborted

-- P of the value and state of a call that returns, T of the state that an exception leaves behind, X
-- if the process is aborted.
abbrev pub Post : {S A : Type 0} → (A → S → Type 0) → (S → Type 0) → Type 0 → Outcome S A → Type 0
Post P T X (done a s) = P a s
Post P T X (threw s) = T s
Post P T X aborted = X

-- P of the state, if the call returns.
abbrev pub After : {S A : Type 0} → (S → Type 0) → Outcome S A → Type 0
After P = Post (λ _ s. P s) (λ _. Unit {0}) (Unit {0})

-- The call does not abort the process.
abbrev pub NoAbort : {S A : Type 0} → Outcome S A → Type 0
NoAbort = Post (λ _ _. Unit {0}) (λ _. Unit {0}) ⊥

abbrev pub bind {ℓ} : {S A B : Type ℓ} → Outcome S A → (A → S → Outcome S B) → Outcome S B
bind o f = elim o [ done a s' ↦ f a s' | threw s' ↦ threw s' | aborted ↦ aborted ]

module _ {S A B : Type 0} where
  -- A condition that also holds after an exception.
  pub Post-bind :
      (P : A → S → Type 0) (Q : B → S → Type 0) (T : S → Type 0) (X : Type 0) (o : Outcome S A)
      (f : A → S → Outcome S B)
      → Post P T X o
      → ((a : A) (s : S) → P a s → Post Q T X (f a s))
      → Post Q T X (bind o f)
  Post-bind P Q T X (done a s) f h k = k a s h
  Post-bind P Q T X (threw s) f h k = h
  Post-bind P Q T X aborted f h k = h

  -- A condition after the first call gives one after the second.
  pub After-bind :
      (P Q : S → Type 0) (o : Outcome S A) (f : A → S → Outcome S B)
      → After P o
      → ((a : A) (s : S) → P s → After Q (f a s))
      → After Q (bind o f)
  After-bind P Q = Post-bind (λ _. P) (λ _. Q) (λ _. Unit) Unit

  pub NoAbort-bind :
      (o : Outcome S A) (f : A → S → Outcome S B)
      → NoAbort o
      → ((a : A) (s : S) → NoAbort (f a s))
      → NoAbort (bind o f)
  NoAbort-bind o f h k = Post-bind (λ _ _. Unit) (λ _ _. Unit) (λ _. Unit) ⊥ o f h (λ a s _. k a s)

pub bind-done : {S : Type 0} (o : Outcome S (Unit {0})) → bind o (λ _ s. done tt s) ≡ o
bind-done (done a s) = refl
bind-done (threw s) = refl
bind-done aborted = refl

-- P of the state, whether the call returns or throws.
abbrev pub Ever : {S A : Type 0} → (S → Type 0) → Outcome S A → Type 0
Ever P = Post (λ _ s. P s) P (Unit {0})

-- A computation that has no effect but may abort.
abbrev pub checked : {S A : Type 0} → Option A → Action S A
checked none s = aborted
checked (some a) s = done a s

module _ {S A B : Type 0} where
  pub Ever-bind :
      (P Q : S → Type 0) (o : Outcome S A) (f : A → S → Outcome S B)
      → Ever P o
      → ((s : S) → P s → Q s)
      → ((a : A) (s : S) → P s → Ever Q (f a s))
      → Ever Q (bind o f)
  Ever-bind P Q (done a s) f h w k = k a s h
  Ever-bind P Q (threw s) f h w k = w s h
  Ever-bind P Q aborted f h w k = h

  -- An invariant that both calls keep.
  pub Ever-bind_inv :
      (P : S → Type 0) (o : Outcome S A) (f : A → S → Outcome S B)
      → Ever P o
      → ((a : A) (s : S) → P s → Ever P (f a s))
      → Ever P (bind o f)
  Ever-bind_inv P o f h k = Ever-bind P P o f h (λ s p. p) k

pub checked-Ever :
    {S A : Type 0} (P : S → Type 0) (o : Option A) (s : S) → P s → Ever P (checked {S = S} o s)
checked-Ever P none s h = tt
checked-Ever P (some a) s h = h

module _ {S A : Type 0} (P : A → S → Type 0) (T : S → Type 0) (X : Type 0) where
  pub Post-check :
      (b : Bool) (k : Action S A) (s : S)
      → X
      → (b ≡ true → Post P T X (k s))
      → Post P T X ((check b >> k) s)
  Post-check true k s x h = h refl
  Post-check false k s x h = x

  pub Post-if :
      (b : Bool) (m k : Action S A) (s : S)
      → (b ≡ true → Post P T X (m s))
      → (b ≡ false → Post P T X (k s))
      → Post P T X ((if b then m else k) s)
  Post-if true m k s f g = f refl
  Post-if false m k s f g = g refl

-- Whatever a call does.
pub Post-any :
    {S A : Type 0} (o : Outcome S A) → Post (λ _ _. Unit {0}) (λ _. Unit {0}) (Unit {0}) o
Post-any (done a s) = tt
Post-any (threw s) = tt
Post-any aborted = tt

-- A weaker condition.
pub Post-map :
    {S A : Type 0} (P Q : A → Type 0) (T : S → Type 0) (X : Type 0) (o : Outcome S A)
    → Post (λ a _. P a) T X o
    → ((a : A) → P a → Q a)
    → Post (λ a _. Q a) T X o
Post-map P Q T X (done a s) h k = k a h
Post-map P Q T X (threw s) h k = h
Post-map P Q T X aborted h k = h

-- Outcomes that go on alike are alike.
pub bind_alike :
    {S A B : Type 0} (o : Outcome S A) (f g : A → S → Outcome S B)
    → ((a : A) (s : S) → f a s ≡ g a s)
    → bind o f ≡ bind o g
bind_alike (done a s) f g e = e a s
bind_alike (threw s) f g e = refl
bind_alike aborted f g e = refl

-- A condition after both calls, where the second may use what the first returned.
pub After-known :
    {S A B : Type 0} (Q : S → Type 0) (o : Outcome S A) (f : A → S → Outcome S B)
    → ((a : A) (s : S) → o ≡ done a s → After Q (f a s))
    → After Q (bind o f)
After-known Q (done a s) f k = k a s refl
After-known Q (threw s) f k = tt
After-known Q aborted f k = tt

pub After-map :
    {S A : Type 0} (P Q : S → Type 0) (o : Outcome S A)
    → After P o
    → ((s : S) → P s → Q s)
    → After Q o
After-map P Q (done a s) h k = k s h
After-map P Q (threw s) h k = tt
After-map P Q aborted h k = tt

pub After-checked :
    {S A B : Type 0} (Q : S → Type 0) (o : Option A) (s : S) (f : A → Action S B)
    → ((a : A) → o ≡ some a → After Q (f a s))
    → After Q (bind (checked o s) f)
After-checked Q none s f k = tt
After-checked Q (some a) s f k = k a refl
