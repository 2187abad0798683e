-- ===== src/Prelude/Bytes.antt =====
-- A Go string is a sequence of bytes. `lit` spells a literal of ASCII characters, and `==` is the
-- comparison of strings.
use Prim.Native.Nat.{ℕ}
use Prim.Native.Char.{code}
use Prim.Native.String.{String}
use mathlib.Core.Path.{◌≡◌, refl}
use mathlib.Core.Logic.{◌↔◌, ◌⊎◌, inl, inr}
use mathlib.Core.Bool.{Bool, true, false, ◌&&◌}
use mathlib.Core.List.{List, [], ◌∷◌}
use native.Mathlib.Omega.{arith}
use mcp_gateway_w.Prelude.Tests.{nat_beq}

abbrev pub Text : Type 0
Text = List ℕ

abbrev pub lit : String → Text
lit String.[] = []
lit (String.◌∷◌ c s) = code c ∷ lit s

unfoldable pub text_beq : Text → Text → Bool
text_beq [] [] = true
text_beq [] (_ ∷ _) = false
text_beq (_ ∷ _) [] = false
text_beq (a ∷ s) (b ∷ t) = nat_beq a b && text_beq s t

pub text_eq_iff : (s t : Text) → (text_beq s t ≡ true) ↔ (s ≡ t)
unfolding text_beq
text_eq_iff [] [] = ground arith
text_eq_iff [] (_ ∷ _) = ground arith
text_eq_iff (_ ∷ _) [] = ground arith
text_eq_iff (a ∷ s) (b ∷ t) = ground (arith, text_eq_iff s t)

infix 50 ◌==◌
abbrev pub ◌==◌ : Text → Text → Bool
s == t = text_beq s t

pub eq_refl : (s : Text) → text_beq s s ≡ true
eq_refl s = (text_eq_iff s s).1 refl

pub Text-cases : (s : Text) → (s ≡ []) ⊎ ((b : ℕ) × (t : Text) × (s ≡ b ∷ t))
Text-cases [] = inl refl
Text-cases (b ∷ t) = inr (b, t, refl)
