-- ===== src/Gateway/Tests.antt =====
-- The gateway on small inputs, and the theorems at concrete events.
use mcp_gateway_w.Prelude.{
  none, some, ◌≡◌, refl, sym, subst, bearer, equal_fold, trim_space, trim_left, trim_right, take,
  drop, inl, true, ◌||◌, [], ◌∷◌, Text, lit, text_beq,
}
use mcp_gateway_w.Prelude.Dict.{Dict, lookup, insert, erase}
use mcp_gateway_w.Downstream.{
  put_entry, close_old, close_entry, add_scoped, add_provider, remove, drop_slug, registry_for,
  update_org, new_registry,
}
use mcp_gateway_w.Secrets.{mem_store, org_ref, user_ref}
use mcp_gateway_w.ServerEvents.{unset, Event}
use mcp_gateway_w.Gateway.{
  stdio_client, Server, new_gateway, cred_headers, kv_env, resolve_credentials, user_client,
  provide, register, upsert_per_user, upsert_shared, apply_server_event, reconcile,
}
use mcp_gateway_w.Gateway.Events.{registered, listed, registered-reconcile}
use mcp_gateway_w.Mcp.{World, failed}
use mcp_gateway_w.Authz.{before_colon, without_suffix, org_from_host, sprintf, mcp_resource}
use mcp_gateway_w.Authz.Tests.{claims, lib, validator, ann, lib-IsJwt, accepted}
use mathlib.Core.List.{Mem}
use mcp_gateway_w.Gateway.Front
use mcp_gateway_w.Gateway.Front.{MetadataDoc, protected_resource_metadata, challenge, serve_mcp}
use mcp_gateway_w.Gateway.Discovery.{
  config_of, IsRefused, IsTurnedAway, validate-protected_resource_metadata, serve_mcp-IsTurnedAway,
}

runs : Unit {0}
unfolding text_beq lookup insert erase put_entry close_old close_entry add_scoped add_provider
    remove drop_slug registry_for update_org new_registry mem_store org_ref user_ref cred_headers
    kv_env resolve_credentials user_client provide register upsert_per_user upsert_shared
    apply_server_event reconcile
runs = tt

abbrev server : Server (Dict (Dict Text))
server = record { secrets_api = mem_store; block_egress = true; header_key = λ s. s }

abbrev files : Event
files = record {
  action = unset;
  org_id = lit "acme";
  id = lit "srv-1";
  slug = lit "files";
  server_type = lit "stdio";
  endpoint_url = [];
  command = lit "fs";
  args = [];
  env = (lit "A", lit "1") ∷ [];
  allowed_roles = [];
  credential_mode = lit "org_shared";
  user_id = [];
}

abbrev secrets : Dict (Dict Text)
secrets = (lit "org/acme/server/srv-1", (lit "TOKEN", lit "x") ∷ []) ∷ []

reconciled :
    (reconcile server (files ∷ []) secrets new_gateway).built
    ≡ (0, stdio_client (lit "fs") [] (lit "A=1" ∷ lit "TOKEN=x" ∷ [])) ∷ []
unfolding runs
reconciled = refl

rebuilt : (reconcile server (files ∷ files ∷ []) secrets new_gateway).closed ≡ 0 ∷ []
unfolding runs
rebuilt = refl

registered-reconcile_example :
    registered
      (reconcile server (files ∷ []) secrets new_gateway).catalog
      (lit "acme")
      (lit "files")
    ≡ (listed (files ∷ []) (lit "acme") (lit "files")
        || registered new_gateway.catalog (lit "acme") (lit "files"))
registered-reconcile_example =
    registered-reconcile server secrets (files ∷ []) new_gateway (lit "acme") (lit "files")
      (inl refl, tt)

discovery : Unit {0}
unfolding text_beq before_colon without_suffix org_from_host sprintf mcp_resource
    protected_resource_metadata challenge
discovery = tt

advertised :
    (doc : MetadataDoc) × (protected_resource_metadata (config_of validator) (lit "acme.mcp.io")
      ≡ some doc)
    × (doc.resource ≡ lit "https://acme.mcp.io/mcp")
unfolding discovery
advertised = (_, refl, refl)

challenged :
    challenge (config_of validator) (lit "acme.mcp.io")
    ≡ lit "Bearer resource_metadata=\"https://acme.mcp.io/.well-known/oauth-protected-resource\""
unfolding discovery
challenged = refl

validate-protected_resource_metadata_example :
    (doc : MetadataDoc) × (protected_resource_metadata (config_of validator) (lit "ACME.mcp.io:443")
      ≡ some doc)
    × Mem doc.resource claims.audience
    × (doc.authorization_servers ≡ claims.issuer ∷ [])
validate-protected_resource_metadata_example =
    validate-protected_resource_metadata lib validator (λ raw. claims) lib-IsJwt (lit "t")
      (lit "ACME.mcp.io:443") ann accepted

abbrev world : World
world = record {
  decode_params = λ params. none;
  list_tools = λ i. none;
  call_tool = λ i tool args. failed tool;
  build = λ p user. none;
}

abbrev front : Front.State
front = record {
  handler = record { catalog = []; quota = none; records_denials = true; denials = []; calls = [] };
  audit_deny = none;
  events = [];
  dropped = 0;
}

no_bearer : bearer (lit "Basic x") ≡ []
unfolding bearer equal_fold trim_space trim_left trim_right take drop
no_bearer = refl

serve_mcp-IsTurnedAway_example : IsTurnedAway (config_of validator) (lit "acme.mcp.io") front (
    serve_mcp lib
      (some validator)
      (config_of validator)
      world
      front
      0
      0
      0
      (lit "acme.mcp.io")
      (lit "/mcp")
      (lit "Basic x")
      none)
serve_mcp-IsTurnedAway_example =
    serve_mcp-IsTurnedAway lib (some validator) (config_of validator) world front 0 0 0
      (lit "acme.mcp.io") (lit "/mcp") (lit "Basic x") none
      (subst (λ t. IsRefused lib (some validator) t (lit "acme.mcp.io")) (sym no_bearer) tt)
