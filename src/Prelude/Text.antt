-- ===== src/Prelude/Text.antt =====
-- Texts are compared as wholes: a decision for `==` of Go strings.
use Prim.Native.String.{String}
use mathlib.Core.Path.{◌≡◌, refl}
use mathlib.Core.Logic.{◌↔◌}
use mathlib.Core.Bool.{Bool, true, false, false≢true}
use text.Mathlib.Text.{◌==◌}
use text.Mathlib.TextEquality.{eq_iff}

-- A Boolean test that reflects a proposition decides it.
abbrev pub dec_of_iff {ℓ} : {A : Type ℓ} (b : Bool) → (b ≡ true) ↔ A → Dec A
dec_of_iff true e = yes (e.0 refl)
dec_of_iff false e = no (λ a. false≢true (e.1 a))

unfoldable pub text_dec : Discrete String
text_dec s t = dec_of_iff (s == t) (eq_iff s t)

abbrev pub text_eq : String → String → Bool
text_eq s t = s == t
