-- ===== src/Prelude/Checked.antt =====
-- Code without effects that may abort the process: `none` is a failed CHECK.
use mathlib.Core.Bool.{Bool, true, false}
use mathlib.Core.Option.{Option, none, some}

infixl 5 ◌>>=◌ ◌>>◌
abbrev pub ◌>>=◌ : {A B : Type 0} → Option A → (A → Option B) → Option B
none >>= f = none
some a >>= f = f a

abbrev pub ◌>>◌ : {B : Type 0} → Option (Unit {0}) → Option B → Option B
m >> k = m >>= λ _. k

-- CHECK (b)
abbrev pub check : Bool → Option (Unit {0})
check true = some tt
check false = none
