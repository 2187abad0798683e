-- ===== src/Tenants/Tests.antt =====
-- The tenants' service: runs against a small identity provider, and the theorems at concrete inputs.
use mathlib.Core.List.{Mem, mem-cons_self}
use mcp_gateway_w.Prelude.{
  subst, Option, ◌&&◌, ℕ, ◌+◌, ◌*◌, ◌≡◌, ◌⊎◌, refl, sym, ap, ◌∙◌, Bool, true, false, List, [], ◌∷◌,
  none, some, Text, lit, text_beq, text_eq_iff, pos, arith, if◌then◌else◌, equal_fold, split_at,
  trim_space, trim_left, trim_right, take, drop, bearer,
}
use mcp_gateway_w.Prelude.Dict.{lookup, insert}
use mcp_gateway_w.Authz.{
  Principal, has_role_in, has_role, Claims, Jwt, JwtValidator, Validated, valid, refused, sprintf,
  keyfunc, verify, validate_for_realm,
}
use mcp_gateway_w.Authz
use mcp_gateway_w.Authz.Binding.{IsJwt}
use mcp_gateway_w.Idp.{Keycloak, ok, build_bootstrap_spec}
use mcp_gateway_w.Tenants
use mcp_gateway_w.Tenants.{
  Tenant, ProvisioningJob, Error, other, MemStore, new_mem_store, create_tenant, get_tenant,
  update_tenant, create_job, update_job, active, suspended, deleted, err_slug_taken,
}
use mcp_gateway_w.Tenants.Slug.{match_end, match_middle, match_slug, is_reserved, validate_slug}
use mcp_gateway_w.Tenants.Saga.{
  Config, Service, State, put_tenant, put_job, record_event, compensate, run_saga,
}
use mcp_gateway_w.Tenants.Service.{
  ProvisionRequest, not_started, compensated, succeeded, spec_of, add_mappers, create_client_step,
  create_admin_step, realm_step, later_steps, finish_failed, finish_active, finish, saga_of,
  run_if_created, new_tenant, new_job, start, check_realm, provision_with, provision,
}
use mcp_gateway_w.Tenants.Lifecycle.{
  done, on_tenant, switch_realm, suspend_tenant, suspend, resume_tenant, resume, delete_tenant,
  delete, retention_days,
}
use mcp_gateway_w.Tenants.Handlers.{
  suspends, deletes, create_error, create_reply, lifecycle_reply, create_with, handle, admit,
  serve_token, serve,
}
use mcp_gateway_w.Tenants.Compensation.{IsKeycloak, IsUnmade, provision-compensated}
use mcp_gateway_w.Tenants.Rows.{IsKeyed, Changes}
use mcp_gateway_w.Tenants.Transitions.{handle-Changes}
use mcp_gateway_w.Tenants.Guard.{serve-admin, IsRefused, IsAdmitted}

runs : Unit {0}
unfolding text_beq equal_fold split_at trim_space trim_left trim_right take drop bearer lookup
    insert has_role_in has_role sprintf Authz.mcp_resource keyfunc verify validate_for_realm
    build_bootstrap_spec new_mem_store create_tenant get_tenant update_tenant create_job update_job
    match_end match_middle match_slug is_reserved validate_slug put_tenant put_job record_event
    compensate run_saga spec_of add_mappers create_client_step create_admin_step realm_step
    later_steps finish_failed finish_active finish saga_of run_if_created new_tenant new_job start
    check_realm provision_with provision on_tenant switch_realm suspend_tenant suspend resume_tenant
    resume delete_tenant delete retention_days create_error create_reply lifecycle_reply create_with
    handle admit serve_token serve
runs = tt

-- A provider that keeps the names of its realms; it cannot make a role if `broken`.
abbrev Realms : Type 0
Realms = List Text

abbrev holds : Realms → Text → Bool
holds [] r = false
holds (x ∷ xs) r = if text_beq x r then true else holds xs r

abbrev without : Text → Realms → Realms
without r [] = []
without r (x ∷ xs) = if text_beq x r then without r xs else x ∷ without r xs

abbrev provider : Bool → Keycloak Realms
provider broken = record {
  realm_exists = λ w r. ok (holds w r);
  create_realm = λ w r. (none, r.name ∷ w);
  set_realm_enabled = λ w r b. (none, w);
  delete_realm = λ w r. (none, without r w);
  create_client = λ w r c. (ok (lit "c1"), w);
  add_protocol_mapper = λ w r c m. (none, w);
  create_realm_role = λ w r role. if broken then (some (lit "down"), w) else (none, w);
  create_user = λ w r u. (ok (lit "u1"), w);
  assign_realm_role = λ w r u role. (none, w);
}

holds-without : (r : Text) (w : Realms) → holds (without r w) r ≡ false
holds-without r [] = refl
holds-without r (x ∷ xs) = ground (arith, holds-without r xs)

provider-IsKeycloak : (broken : Bool) → IsKeycloak (provider broken) holds
provider-IsKeycloak broken = record {
  asked = λ w r b e. ground arith;
  deleted = λ w w' r e. ap (λ p. holds p.1 r) (sym e) ∙ holds-without r w;
}

abbrev config : Config
config = record {
  base_domain = lit "mcp.io";
  console_origin = lit "http://c";
  admin_audience = lit "api";
  resource_template = [];
  reserved_slugs = lit "www, Admin";
  audit_retention_days = pos 30;
  access_ttl = 900;
  sso_idle = 1;
  sso_max = 2;
  ssl_required = lit "none";
}

abbrev service : Bool → Service Realms
service broken = record {
  kc = some (provider broken);
  audited = true;
  purger = none;
  cfg = config;
  clock = λ n. 100 + n;
  new_job_id = λ n. lit "job_1";
  rfc3339 = λ t. [];
}

abbrev empty : State Realms
empty = record { outer = []; store = record { tenants = []; jobs = [] }; events = []; readings = 0 }

abbrev acme : ProvisionRequest
acme = record {
  slug = lit "acme";
  display_name = lit "Acme";
  admin_email = lit "a@b";
  actor = lit "op";
}

abbrev row : Tenant
row = record {
  slug = lit "acme";
  display_name = lit "Acme";
  status = active;
  admin_email = lit "a@b";
  realm_name = lit "acme";
  subdomain_ready = true;
  created_at = 100;
  updated_at = 101;
  suspended_at = none;
  deleted_at = none;
  audit_retention_until = none;
}

abbrev with_row : State Realms
with_row = record empty {
  outer = lit "acme" ∷ [];
  store = record { tenants = (lit "acme", row) ∷ []; jobs = [] };
}

made :
    ((provision (service false) empty acme).1.outer ≡ lit "acme" ∷ [])
    × ((provision (service false) empty acme).1.store.tenants ≡ (lit "acme", row) ∷ [])
unfolding runs
made = (refl, refl)

abbrev broken_job : ProvisioningJob
broken_job = elim (provision (service true) empty acme).0 [
  | not_started e ↦ new_job [] [] 0
  | compensated t j e ↦ j
  | succeeded t j ↦ j
]

abbrev failed_row : Tenant
failed_row = record row { status = Tenants.Status.failed; subdomain_ready = false }

broke :
    (provision (service true) empty acme).0
    ≡ compensated failed_row broken_job (other (lit "step admin-role: down"))
unfolding runs
broke = refl

provision-compensated_example :
    (holds empty.outer acme.slug ≡ false)
    × ((holds (provision (service true) empty acme).1.outer acme.slug ≡ false)
        ⊎ IsUnmade (provider true) empty.outer (spec_of (service true).cfg acme).realm)
provision-compensated_example =
    provision-compensated (service true) (provider true) holds refl (provider-IsKeycloak true)
      (λ w r. refl) empty acme failed_row broken_job (other (lit "step admin-role: down")) broke

bad_slugs :
    (validate_slug (lit "admin") (lit "www, Admin") ≡ false)
    × (validate_slug (lit "a_b") [] ≡ false)
    × (validate_slug (lit "ab") [] ≡ false)
    × (validate_slug (lit "ab-c") [] ≡ true)
unfolding runs
bad_slugs = (refl, refl, refl, refl)

row-IsKeyed : IsKeyed ((lit "acme", row) ∷ [])
unfolding lookup
row-IsKeyed k t e = ground (arith, text_eq_iff (lit "acme") k)

handle-Changes_example :
    Changes with_row.store.tenants
      (handle (service false) with_row none (suspends (lit "acme"))).1.store.tenants
    × IsKeyed (handle (service false) with_row none (suspends (lit "acme"))).1.store.tenants
handle-Changes_example =
    handle-Changes (service false) with_row none (suspends (lit "acme")) row-IsKeyed

accepted : validate_slug (lit "acme") (lit "www, Admin") ≡ true
unfolding runs
accepted = refl

present : get_tenant with_row.store (lit "acme") ≡ some row
unfolding runs
present = refl

abbrev deleted_row : Tenant
deleted_row = record row {
  status = deleted;
  updated_at = 100;
  subdomain_ready = false;
  deleted_at = some 100;
  audit_retention_until = some (100 + 365 * 86400000000000);
}

is_deleted : (delete (service false) with_row (lit "acme") (lit "op")).0 ≡ done deleted_row
unfolding runs
is_deleted = refl

-- A JWT package for which every token is well signed and is an operator's.
abbrev claims : Claims
claims = record {
  issuer = lit "https://idp/platform";
  audience = lit "api" ∷ [];
  subject = lit "op";
  preferred_username = lit "op";
  roles = lit "platform-admin" ∷ [];
}

abbrev lib : Jwt ℕ
lib = record {
  parse_with_claims = λ raw kf iss aud.
      if text_beq claims.issuer iss && text_beq (lit "api") aud then some claims else none;
}

parse-lem :
    (raw : Text) (kf : Bool → Text → Option ℕ) (iss aud : Text) (c : Claims)
    → lib.parse_with_claims raw kf iss aud ≡ some c
    → (c ≡ claims) × (c.issuer ≡ iss) × (lit "api" ≡ aud)
parse-lem raw kf iss aud c h =
    ground (arith, text_eq_iff claims.issuer iss, text_eq_iff (lit "api") aud)

lib-IsJwt : IsJwt lib (λ raw. claims)
lib-IsJwt = record {
  own_claims = λ raw kf iss aud c h.
      let (a, b, e) = parse-lem raw kf iss aud c h in
      let m = subst (λ x. Mem (lit "api") x.audience) (sym a) mem-cons_self in
      (a, b, subst (λ x. Mem x c.audience) e m);
}

abbrev validator : JwtValidator ℕ
validator = record {
  base_domain = lit "mcp.io";
  issuer_template = lit "https://idp/%s";
  resource_template = [];
  key_for = λ iss kid. some 1;
}

-- The operator's request is carried out.
admitted :
    (serve lib validator
      (lit "platform")
      (lit "api")
      (service false)
      with_row
      (lit "Bearer x")
      (deletes (lit "acme"))).0.status
    ≡ 202
unfolding runs
admitted = refl

serve-admin_example :
    IsRefused with_row (
      serve lib validator
        (lit "platform")
        (lit "api")
        (service false)
        with_row
        (lit "Bearer x")
        (deletes (lit "acme")))
    ⊎ IsAdmitted lib validator
        (λ raw. claims)
        (lit "platform")
        (lit "api")
        (service false)
        with_row
        (deletes (lit "acme"))
        (bearer (lit "Bearer x"))
        (serve lib validator
          (lit "platform")
          (lit "api")
          (service false)
          with_row
          (lit "Bearer x")
          (deletes (lit "acme")))
serve-admin_example =
    serve-admin lib validator (λ raw. claims) lib-IsJwt (lit "platform") (lit "api") (service false)
      with_row (lit "Bearer x") (deletes (lit "acme"))
