-- ===== src/Config/Tests.antt =====
-- The configuration of a small environment.
use mcp_gateway_w.Prelude.{
  ◌≡◌, ◌≢◌, ◌↔◌, refl, false, [], ◌∷◌, none, some, Text, lit, text_beq, pos,
}
use mcp_gateway_w.Prelude.Dict.{Dict, lookup}
use mcp_gateway_w.Config.{Os, load, is_prod, validate_config}
use mcp_gateway_w.Config.Production.{IsOff, load-IsProduction}

abbrev os : Dict Text → Os
os vars = record { lookup_env = λ key. lookup key vars; parse_duration = λ v. none }

abbrev prod : Os
prod = os (
    (lit "MCP_ENV", lit "PROD")
    ∷ (lit "MCP_POSTGRES_DSN", lit "postgres://db")
    ∷ (lit "MCP_TENANT_CEILING", lit "many")
    ∷ [])

lacks_vault :
    validate_config (load prod) ≡ some (lit "missing required config in prod: MCP_VAULT_ADDR")
unfolding validate_config load lookup text_beq
lacks_vault = refl

default_ceiling : (load prod).tenant_ceiling ≡ pos 200
unfolding load lookup text_beq
default_ceiling = refl

load-IsProduction_example :
    (((load prod).block_private_egress ≡ false) ↔ IsOff prod)
    × ((validate_config (load prod) ≡ none)
        ↔ (((load prod).postgres_dsn ≢ []) × ((load prod).vault_addr ≢ [])))
unfolding load is_prod lookup text_beq
load-IsProduction_example = load-IsProduction prod refl
