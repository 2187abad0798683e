-- ===== src/Prelude/Split.antt =====
-- A text in two parts, told apart by a separator byte that the first part does not hold.
use mathlib.Core.Path.{◌≡◌, refl}
use mathlib.Core.Logic.{◌≢◌}
use mathlib.Core.List.{[], ◌∷◌, ◌++◌}
use Prim.Native.Nat.{ℕ}
use native.Mathlib.Omega.{arith}
use mcp_gateway_w.Prelude.Lists.{All, length-append}
use mcp_gateway_w.Prelude.Bytes.{Text}

-- The byte `c` does not occur in the text.
abbrev pub Lacks : ℕ → Text → Type 0
Lacks c s = All (λ b. b ≢ c) s

pub append-sep-injective :
    (c : ℕ) (s t u v : Text) → Lacks c s → Lacks c t → s ++ c ∷ u ≡ t ++ c ∷ v → (s ≡ t) × (u ≡ v)
append-sep-injective c [] [] u v hs ht e = (refl, cc)
append-sep-injective c [] (b ∷ t) u v hs ht e = absurd (ht.0 (cc))
append-sep-injective c (a ∷ s) [] u v hs ht e = absurd (hs.0 (cc))
append-sep-injective c (a ∷ s) (b ∷ t) u v hs ht e =
    let (p, q) = append-sep-injective c s t u v hs.1 ht.1 (cc) in (cc, q)

pub append_left-injective : (s u v : Text) → s ++ u ≡ s ++ v → u ≡ v
append_left-injective [] u v e = e
append_left-injective (a ∷ s) u v e = append_left-injective s u v (cc)

pub append_right-injective : (s t u : Text) → s ++ u ≡ t ++ u → s ≡ t
append_right-injective [] [] u e = refl
append_right-injective [] (b ∷ t) u e = ground (arith, length-append (b ∷ t) u)
append_right-injective (a ∷ s) [] u e = ground (arith, length-append (a ∷ s) u)
append_right-injective (a ∷ s) (b ∷ t) u e = ground (arith, append_right-injective s t u)
