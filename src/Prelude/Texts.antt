-- ===== src/Prelude/Texts.antt =====
-- Equality of texts as a decision, and whether a text is empty.
use Prim.Native.String.{String, ◌++◌}
use mathlib.Core.Bool.{Bool, true, false}
use mathlib.Core.Logic.{ite}
use mathlib.Core.Path.{◌≡◌, refl}
use text.Mathlib.Text.{◌==◌ as eq_text}
use text.Mathlib.TextEquality.{eq_iff}

discrete_by : (s t : String) (b : Bool) → eq_text s t ≡ b → Dec (s ≡ t)
discrete_by s t true h = yes ((eq_iff s t).0 h)
discrete_by s t false h = no (λ e. cc ((eq_iff s t).1 e))

unfoldable pub str_discrete : Discrete String
unfolding discrete_by
str_discrete s t = discrete_by s t (eq_text s t) refl

-- `a == b` on std::string.
abbrev pub same : String → String → Bool
same s t = ite (str_discrete s t) true false

-- `s.empty ()`.
abbrev pub is_empty : String → Bool
is_empty s = same s ""

-- `a + b` on std::string.
abbrev pub concat : String → String → String
concat s t = ◌++◌ s t
