-- ===== src/Config/Production.antt =====
-- config.go: what a configuration for production promises.
use mcp_gateway_w.Prelude.{
  ◌≡◌, ◌≢◌, ◌↔◌, refl, sym, ap, subst, ◌∙◌, inl, inr, true, false, Bool-cases, Option-cases, [],
  ◌∷◌, Option, none, some, Text, lit, is_empty, arith,
}
use mcp_gateway_w.Config.{
  Os, Config, set_value, parse_bool, get_bool, parsed, load, is_prod, missing, validate_config,
}

is_empty-false : (s : Text) → (is_empty s ≡ false) ↔ (s ≢ [])
is_empty-false [] = ground arith
is_empty-false (a ∷ s) = ground arith

-- The value that switches the guard off.
abbrev pub IsOff : Os → Type 0
IsOff o =
    (v : Text) × (set_value o (lit "MCP_BLOCK_PRIVATE_EGRESS") ≡ some v)
    × (parse_bool v ≡ some false)

parsed-false :
    (v : Option Text)
    → parsed parse_bool true v ≡ false
    → (t : Text) × (v ≡ some t) × (parse_bool t ≡ some false)
parsed-false none h = cc
parsed-false (some t) h = elim (Option-cases (parse_bool t)) [
  | inl x ↦ absurd (ground (arith, x, h))
  | inr (true, x) ↦ absurd (ground (arith, x, h))
  | inr (false, x) ↦ (t, refl, x)
]

parsed_off : (v : Text) → parse_bool v ≡ some false → parsed parse_bool true (some v) ≡ false
parsed_off v f = ground (arith, f)

get_bool-false :
    (o : Os) (key : Text)
    → (get_bool o key true ≡ false)
      ↔ ((v : Text) × (set_value o key ≡ some v) × (parse_bool v ≡ some false))
unfolding get_bool
get_bool-false o key = (
  λ h. parsed-false (set_value o key) h,
  λ (v, e, f). ap (parsed parse_bool true) e ∙ parsed_off v f,
)

validate_config-prod :
    (c : Config)
    → is_prod c ≡ true
    → (validate_config c ≡ none) ↔ ((c.postgres_dsn ≢ []) × (c.vault_addr ≢ []))
unfolding validate_config missing
validate_config-prod c h = elim (Bool-cases (is_empty c.postgres_dsn)) [
  | inl x ↦ ground (arith, h, x, is_empty-false c.postgres_dsn, is_empty-false c.vault_addr)
  | inr x ↦ ground (arith, h, x, is_empty-false c.postgres_dsn, is_empty-false c.vault_addr)
]

-- In production the gateway refuses private addresses unless the variable for it is set to a value
-- that reads as false; and the configuration is accepted exactly if the database and the secrets
-- store are given.
pub load-IsProduction :
    (o : Os)
    → is_prod (load o) ≡ true
    → (((load o).block_private_egress ≡ false) ↔ IsOff o)
      × ((validate_config (load o) ≡ none)
          ↔ (((load o).postgres_dsn ≢ []) × ((load o).vault_addr ≢ [])))
unfolding load is_prod
load-IsProduction o h = (
  subst (λ b. (get_bool o (lit "MCP_BLOCK_PRIVATE_EGRESS") b ≡ false) ↔ IsOff o) (sym h)
      (get_bool-false o (lit "MCP_BLOCK_PRIVATE_EGRESS")),
  validate_config-prod (load o) h,
)
