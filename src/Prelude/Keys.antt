-- ===== src/Prelude/Keys.antt =====
-- The keys that the maps of the code have: instants and symbols.
use Prim.Native.Nat.{ℕ}
use Prim.Native.String.{String}
use mathlib.Core.Path.{◌≡◌, refl}
use mathlib.Core.Logic.{◌↔◌}
use mathlib.Core.Bool.{true}
use mathlib.Core.List.{[], ◌∷◌}
use native.Mathlib.Omega.{arith}
use text.Mathlib.Text.{◌==◌ as str_beq}
use text.Mathlib.TextEquality.{eq_iff}
use volatility_services.Prelude.Tests.{nat_beq}
use volatility_services.Prelude.Dict.{Key}
use volatility_services.Prelude.Text.{Text, text_beq}

pub nat_beq_iff : (a b : ℕ) → (nat_beq a b ≡ true) ↔ (a ≡ b)
nat_beq_iff a b = (λ h. ground arith, λ h. ground arith)

instance abbrev pub instant_key : Key ℕ
instant_key = record { same = nat_beq; same_iff = nat_beq_iff }

instance abbrev pub symbol_key : Key String
symbol_key = record { same = str_beq; same_iff = eq_iff }

pub text_beq_iff : (s t : Text) → (text_beq s t ≡ true) ↔ (s ≡ t)
text_beq_iff [] [] = (λ h. refl, λ h. refl)
text_beq_iff [] (y ∷ t) = (λ h. absurd (cc h), λ h. absurd (cc h))
text_beq_iff (x ∷ s) [] = (λ h. absurd (cc h), λ h. absurd (cc h))
text_beq_iff (x ∷ s) (y ∷ t) =
    (λ h. ground (arith, text_beq_iff s t), λ h. ground (arith, text_beq_iff s t))

instance abbrev pub text_key : Key Text
text_key = record { same = text_beq; same_iff = text_beq_iff }
