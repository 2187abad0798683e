-- ===== src/Prelude/Strings.antt =====
-- What the code uses of the package `strings`, for ASCII, and the reading of a bearer token.
use Prim.Native.Nat.{ℕ, zero, suc, ◌+◌}
use mathlib.Core.Bool.{Bool, true, false, ◌&&◌, ◌||◌}
use mathlib.Core.List.{List, [], ◌∷◌, ◌++◌}
use mcp_gateway_w.Prelude.Tests.{ltb, leb, nat_beq, if◌then◌else◌}
use mcp_gateway_w.Prelude.Lists.{length}
use mcp_gateway_w.Prelude.Bytes.{Text, lit}

-- `strings.Split` at a byte, with the entry that is being read.
unfoldable pub split_at : ℕ → Text → Text → List Text
split_at c entry [] = entry ∷ []
split_at c entry (b ∷ s) =
    let longer = split_at c (entry ++ b ∷ []) s in
    let next = split_at c [] s in if nat_beq b c then entry ∷ next else longer

abbrev pub is_space : ℕ → Bool
is_space b = nat_beq b 32 || (leb 9 b && leb b 13)

unfoldable pub trim_left : Text → Text
trim_left [] = []
trim_left (b ∷ s) = if is_space b then trim_left s else b ∷ s

unfoldable pub trim_right : Text → Text
trim_right [] = []
trim_right (b ∷ s) =
    let rest = trim_right s in
    elim rest [ [] ↦ if is_space b then [] else b ∷ [] | c ∷ t ↦ b ∷ c ∷ t ]

unfoldable pub trim_space : Text → Text
unfolding trim_left trim_right
trim_space s = trim_right (trim_left s)

abbrev pub to_lower : ℕ → ℕ
to_lower b = if leb b'A' b && leb b b'Z' then b + 32 else b

unfoldable pub equal_fold : Text → Text → Bool
equal_fold [] [] = true
equal_fold [] (_ ∷ _) = false
equal_fold (_ ∷ _) [] = false
equal_fold (a ∷ s) (b ∷ t) = nat_beq (to_lower a) (to_lower b) && equal_fold s t

abbrev pub is_empty : Text → Bool
is_empty [] = true
is_empty (_ ∷ _) = false

-- `s[:n]` and `s[n:]`, for an `n` that is not beyond the end.
unfoldable pub take : ℕ → Text → Text
take zero s = []
take (suc n) [] = []
take (suc n) (b ∷ s) = b ∷ take n s

unfoldable pub drop : ℕ → Text → Text
drop zero s = s
drop (suc n) [] = []
drop (suc n) (b ∷ s) = drop n s

-- The token of an `Authorization` header, which the gateway and both parts of the control plane read
-- with one function.
unfoldable pub bearer : Text → Text
unfolding equal_fold trim_space take drop
bearer h =
    if ltb 7 (length h) && equal_fold (take 7 h) (lit "Bearer ") then trim_space (drop 7 h) else []
