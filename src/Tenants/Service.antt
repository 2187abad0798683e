-- ===== src/Tenants/Service.antt =====
-- services/control-plane/internal/tenants/service.go: `Provision`. The metrics and the log lines are left
-- out, with the tenant ceiling, which only writes a log line.
use mcp_gateway_w.Prelude.{
  ℕ, true, false, not, List, [], ◌∷◌, ◌++◌, Option, none, some, Text, lit, if◌then◌else◌,
}
use mcp_gateway_w.Authz
use mcp_gateway_w.Idp.{
  Keycloak, Answer, BootstrapSpec, build_bootstrap_spec, Client, ProtocolMapper,
}
use mcp_gateway_w.Tenants.{
  MemStore, Status, unset, provisioning, active, Tenant, action_provision, job_running,
  job_succeeded, job_compensated, ProvisioningJob, Error, err_slug_taken, err_invalid_slug,
  err_not_configured, other, create_tenant, get_tenant, create_job,
}
use mcp_gateway_w.Tenants.Slug.{validate_slug}
use mcp_gateway_w.Tenants.Saga.{
  Config, Service, State, SagaStep, now, tick, put_tenant, put_job, record_event, run_saga,
}

pub record ProvisionRequest : Type 0 where
  pub slug : Text
  pub display_name : Text
  pub admin_email : Text
  pub actor : Text

abbrev pub zero_tenant : Tenant
zero_tenant = record {
  slug = [];
  display_name = [];
  status = unset;
  admin_email = [];
  realm_name = [];
  subdomain_ready = false;
  created_at = 0;
  updated_at = 0;
  suspended_at = none;
  deleted_at = none;
  audit_retention_until = none;
}

unfoldable pub spec_of : Config → ProvisionRequest → BootstrapSpec
unfolding build_bootstrap_spec
spec_of cfg req = build_bootstrap_spec (record {
  slug = req.slug;
  display_name = req.display_name;
  admin_email = req.admin_email;
  console_origin = cfg.console_origin;
  admin_audience = cfg.admin_audience;
  mcp_resource = Authz.mcp_resource req.slug cfg.base_domain cfg.resource_template;
  access_ttl = cfg.access_ttl;
  sso_idle = cfg.sso_idle;
  sso_max = cfg.sso_max;
  ssl_required = cfg.ssl_required;
})

-- What `Provision` returns: nothing but an error, or a tenant and a job with and without one.
pub data Provisioned : Type 0 where
  not_started : Error → Provisioned
  compensated : Tenant → ProvisioningJob → Error → Provisioned
  succeeded : Tenant → ProvisioningJob → Provisioned

unfoldable pub new_tenant : ProvisionRequest → ℕ → Tenant
new_tenant req t = record {
  slug = req.slug;
  display_name = req.display_name;
  status = provisioning;
  admin_email = req.admin_email;
  realm_name = req.slug;
  subdomain_ready = false;
  created_at = t;
  updated_at = t;
  suspended_at = none;
  deleted_at = none;
  audit_retention_until = none;
}

unfoldable pub new_job : Text → Text → ℕ → ProvisioningJob
new_job id slug t = record {
  id = id;
  tenant_slug = slug;
  action = action_provision;
  status = job_running;
  steps = [];
  error = [];
  created_at = t;
  updated_at = t;
}

module _ {W : Type 0} where
  unfoldable pub add_mappers : Keycloak W → W → Text → Text → List ProtocolMapper → Option Text × W
  add_mappers kc w realm id [] = (none, w)
  add_mappers kc w realm id (m ∷ ms) =
      let (e, w1) = kc.add_protocol_mapper w realm id m in
      let rest = add_mappers kc w1 realm id ms in elim e [ none ↦ rest | some msg ↦ (some msg, w1) ]

  unfoldable pub create_client_step :
      Keycloak W → Text → Client → List ProtocolMapper → W → Option Text × W
  unfolding add_mappers
  create_client_step kc realm client mappers w =
      let (a, w1) = kc.create_client w realm client in
      elim a [
        | Answer.failed msg ↦ (some msg, w1)
        | Answer.ok id ↦ add_mappers kc w1 realm id mappers
      ]

  unfoldable pub create_admin_step : Keycloak W → BootstrapSpec → W → Option Text × W
  create_admin_step kc spec w =
      let (a, w1) = kc.create_user w spec.realm.name spec.admin_user in
      elim a [
        | Answer.failed msg ↦ (some msg, w1)
        | Answer.ok id ↦ kc.assign_realm_role w1 spec.realm.name id spec.admin_role
      ]

  unfoldable pub realm_step : Keycloak W → BootstrapSpec → SagaStep W
  realm_step kc spec = record {
    name = lit "realm";
    do_step = λ w. kc.create_realm w spec.realm;
    undo = some (λ w. (kc.delete_realm w spec.realm.name).1);
  }

  unfoldable pub later_steps : Keycloak W → BootstrapSpec → List (SagaStep W)
  unfolding create_client_step create_admin_step
  later_steps kc spec =
      record {
        name = lit "console-client";
        do_step = create_client_step kc spec.realm.name spec.console_client spec.console_mappers;
        undo = none;
      }
      ∷ record {
        name = lit "mcp-client";
        do_step = create_client_step kc spec.realm.name spec.mcp_client spec.mcp_mappers;
        undo = none;
      }
      ∷ record {
        name = lit "admin-role";
        do_step = λ w. kc.create_realm_role w spec.realm.name spec.admin_role;
        undo = none;
      }
      ∷ record { name = lit "admin-user"; do_step = create_admin_step kc spec; undo = none }
      ∷ []

  -- What `t, _ = s.store.GetTenant(ctx, slug)` reads.
  abbrev pub stored : State W → Text → Tenant
  stored st slug = elim (get_tenant st.store slug) [ none ↦ zero_tenant | some t ↦ t ]

  unfoldable pub finish_failed :
      Service W → State W → ProvisionRequest → ProvisioningJob → Text → Provisioned × State W
  unfolding put_tenant put_job record_event
  finish_failed svc st req job msg =
      let t = record (stored st req.slug) { status = Status.failed; updated_at = now svc st } in
      let st1 = put_tenant (tick st) t in
      let j = record job { status = job_compensated; error = msg; updated_at = now svc st1 } in
      let st2 = put_job (tick st1) j in
      (
        compensated t j (other msg),
        record_event svc st2 req.slug req.actor (lit "tenant.provision.failed") msg,
      )

  unfoldable pub finish_active :
      Service W → State W → ProvisionRequest → ProvisioningJob → Provisioned × State W
  unfolding put_tenant put_job record_event
  finish_active svc st req job =
      let t = record (stored st req.slug) {
        status = active;
        subdomain_ready = true;
        updated_at = now svc st;
      } in
      let st1 = put_tenant (tick st) t in
      let j = record job { status = job_succeeded; updated_at = now svc st1 } in
      let st2 = put_job (tick st1) j in
      (succeeded t j, record_event svc st2 req.slug req.actor (lit "tenant.provision.succeeded") [])

  -- What follows on the saga.
  unfoldable pub finish :
      Service W → ProvisionRequest → Option Text × ProvisioningJob × State W → Provisioned × State W
  unfolding finish_failed finish_active
  finish svc req (none, job, st) = finish_active svc st req job
  finish svc req (some msg, job, st) = finish_failed svc st req job msg

  -- The saga, with the tenant's row stored.
  unfoldable pub saga_of :
      Service W
      → Keycloak W
      → State W
      → ProvisionRequest
      → MemStore
      → Option Text × ProvisioningJob × State W
  unfolding new_job later_steps realm_step spec_of run_saga
  saga_of svc kc st req store =
      let job = new_job (svc.new_job_id st.readings) req.slug (now svc st) in
      let spec = spec_of svc.cfg req in
      run_saga (record (tick st) { store = create_job store job }) job []
        (realm_step kc spec ∷ later_steps kc spec)

  unfoldable pub run_if_created :
      Service W
      → Keycloak W
      → State W
      → ProvisionRequest
      → Option Error × MemStore
      → Provisioned × State W
  unfolding finish saga_of
  run_if_created svc kc st req (some err, store) = (not_started err, tick st)
  run_if_created svc kc st req (none, store) = finish svc req (saga_of svc kc st req store)

  -- `Provision` from the creation of the tenant's row on.
  unfoldable pub start : Service W → Keycloak W → State W → ProvisionRequest → Provisioned × State W
  unfolding run_if_created new_tenant
  start svc kc st req =
      run_if_created svc kc st req (create_tenant st.store (new_tenant req (now svc st)))

  unfoldable pub check_realm :
      Service W → Keycloak W → State W → ProvisionRequest → Provisioned × State W
  unfolding start
  check_realm svc kc st req = elim (kc.realm_exists st.outer req.slug) [
    | Answer.failed msg ↦ (not_started (other (lit "check realm: " ++ msg)), st)
    | Answer.ok exists ↦ if exists then (not_started err_slug_taken, st) else start svc kc st req
  ]

  unfoldable pub provision_with :
      Service W → Keycloak W → State W → ProvisionRequest → Provisioned × State W
  unfolding check_realm
  provision_with svc kc st req =
      if not (validate_slug req.slug svc.cfg.reserved_slugs)
      then (not_started err_invalid_slug, st)
      else elim (get_tenant st.store req.slug) [
        | some _ ↦ (not_started err_slug_taken, st)
        | none ↦ check_realm svc kc st req
      ]

  unfoldable pub provision : Service W → State W → ProvisionRequest → Provisioned × State W
  unfolding provision_with
  provision svc st req = elim svc.kc [
    | none ↦ (not_started err_not_configured, st)
    | some kc ↦ provision_with svc kc st req
  ]
