-- ===== src/Tenants/Format.antt =====
-- slug.go: which slugs are accepted.
use mcp_gateway_w.Prelude.{
  ℕ, ◌+◌, ◌-◌, ◌≤◌, ◌≡◌, ◌↔◌, ◌⊎◌, true, false, List, [], ◌∷◌, Text, length, All, split_at,
  trim_space, is_empty, equal_fold, arith,
}
use mcp_gateway_w.Tenants.Slug.{
  is_lower, is_end, is_middle, match_end, match_middle, match_slug, is_reserved, validate_slug,
}

-- All bytes but the last are letters, digits or hyphens, and the last is no hyphen.
abbrev pub IsTail : Text → Type 0
IsTail [] = ⊥
IsTail (b ∷ []) = is_end b ≡ true
IsTail (b ∷ c ∷ s) = (is_middle b ≡ true) × IsTail (c ∷ s)

match_middle_iff :
    (lo hi : ℕ) (s : Text)
    → lo ≤ hi
    → (match_middle lo hi s ≡ true) ↔ ((lo + 1 ≤ length s) × (length s ≤ hi + 1) × IsTail s)
unfolding match_middle match_end
match_middle_iff lo hi [] h = ground arith
match_middle_iff lo hi (b ∷ []) h = ground (arith, match_middle_iff (lo - 1) (hi - 1) [])
match_middle_iff lo hi (b ∷ c ∷ s) h = ground (arith, match_middle_iff (lo - 1) (hi - 1) (c ∷ s))

abbrev pub IsSlug : Text → Type 0
IsSlug [] = ⊥
IsSlug (b ∷ s) = (is_lower b ≡ true) × (2 ≤ length s) × (length s ≤ 39) × IsTail s

abbrev pub IsFree : Text → Text → Type 0
IsFree slug r = (trim_space r ≡ []) ⊎ (equal_fold (trim_space r) slug ≡ false)

match_slug_iff : (s : Text) → (match_slug s ≡ true) ↔ IsSlug s
unfolding match_slug
match_slug_iff [] = ground arith
match_slug_iff (b ∷ s) = ground (arith, match_middle_iff 1 38 s)

is_empty_iff : (s : Text) → (is_empty s ≡ true) ↔ (s ≡ [])
is_empty_iff [] = ground arith
is_empty_iff (_ ∷ _) = ground arith

is_reserved_iff :
    (slug : Text) (rs : List Text) → (is_reserved slug rs ≡ false) ↔ All (IsFree slug) rs
unfolding is_reserved
is_reserved_iff slug [] = ground arith
is_reserved_iff slug (r ∷ rs) = ground (arith, is_reserved_iff slug rs, is_empty_iff (trim_space r))

-- A slug is accepted exactly if it has 3 to 40 bytes, starts with a lower-case letter, goes on with
-- lower-case letters, digits and hyphens, does not end in a hyphen, and no entry of the reserved list
-- that is not blank is the slug in any case.
validate_slug_iff :
    (slug reserved_csv : Text)
    → (validate_slug slug reserved_csv ≡ true)
      ↔ (IsSlug slug × All (IsFree slug) (split_at b',' [] reserved_csv))
unfolding validate_slug
validate_slug_iff slug csv =
    ground (arith, match_slug_iff slug, is_reserved_iff slug (split_at b',' [] csv))
