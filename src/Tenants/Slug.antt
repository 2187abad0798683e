-- ===== src/Tenants/Slug.antt =====
-- services/control-plane/internal/tenants/slug.go: `ValidateSlug`. The reserved list is taken to be
-- ASCII, for which `TrimSpace` and `EqualFold` are as here.
use mcp_gateway_w.Prelude.{
  ℕ, ◌-◌, Bool, true, false, not, ◌&&◌, ◌||◌, List, [], ◌∷◌, Text, ltb, leb, nat_beq, if◌then◌else◌,
  split_at, trim_space, is_empty, equal_fold,
}

abbrev pub is_lower : ℕ → Bool
is_lower b = leb b'a' b && leb b b'z'

abbrev pub is_digit : ℕ → Bool
is_digit b = leb b'0' b && leb b b'9'

-- `[a-z0-9]` and `[a-z0-9-]`.
abbrev pub is_end : ℕ → Bool
is_end b = is_lower b || is_digit b

abbrev pub is_middle : ℕ → Bool
is_middle b = is_end b || nat_beq b b'-'

-- `[a-z0-9]$`.
unfoldable pub match_end : Text → Bool
match_end [] = false
match_end (b ∷ []) = is_end b
match_end (b ∷ c ∷ s) = false

-- `[a-z0-9-]{lo,hi}[a-z0-9]$`.
unfoldable pub match_middle : ℕ → ℕ → Text → Bool
unfolding match_end
match_middle lo hi [] = false
match_middle lo hi (b ∷ s) =
    let more = match_middle (lo - 1) (hi - 1) s in
    (nat_beq lo 0 && match_end (b ∷ s)) || (ltb 0 hi && (is_middle b && more))

-- `^[a-z][a-z0-9-]{1,38}[a-z0-9]$`.
unfoldable pub match_slug : Text → Bool
unfolding match_middle
match_slug [] = false
match_slug (b ∷ s) = is_lower b && match_middle 1 38 s

unfoldable pub is_reserved : Text → List Text → Bool
unfolding trim_space equal_fold
is_reserved slug [] = false
is_reserved slug (r ∷ rs) =
    let rest = is_reserved slug rs in
    if not (is_empty (trim_space r)) && equal_fold (trim_space r) slug then true else rest

-- `true` where the Go function gives nil.
unfoldable pub validate_slug : Text → Text → Bool
unfolding match_slug split_at is_reserved
validate_slug slug reserved_csv =
    if not (match_slug slug) then false else not (is_reserved slug (split_at b',' [] reserved_csv))
