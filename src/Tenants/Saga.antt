-- ===== src/Tenants/Saga.antt =====
-- services/control-plane/internal/tenants/service.go: the service's state and `runSaga`. The state of
-- the identity provider and of the servers' purge is `outer`, of the type `W`; the audit logger is
-- the list of the events given to it, oldest first. `readings` counts the calls of the clock.
-- `new_job_id` gives the random job ids and `rfc3339` is `time.Format` with that layout.
use mcp_gateway_w.Prelude.{
  ℕ, Bool, List, [], ◌∷◌, ◌++◌, Option, none, some, Text, lit, text_beq, if◌then◌else◌, ◌+◌, ℤ,
}
use mcp_gateway_w.Audit.{Event}
use mcp_gateway_w.Idp.{Keycloak}
use mcp_gateway_w.Tenants.{Tenant, ProvisioningJob, MemStore, update_tenant, update_job}

pub record Config : Type 0 where
  pub base_domain : Text
  pub console_origin : Text
  pub admin_audience : Text
  pub resource_template : Text
  pub reserved_slugs : Text
  pub audit_retention_days : ℤ
  pub access_ttl : ℕ
  pub sso_idle : ℕ
  pub sso_max : ℕ
  pub ssl_required : Text

pub record Service (W : Type 0) : Type 0 where
  pub kc : Option (Keycloak W)
  pub audited : Bool
  pub purger : Option (W → Text → W)
  pub cfg : Config
  pub clock : ℕ → ℕ
  pub new_job_id : ℕ → Text
  pub rfc3339 : ℕ → Text

pub record State (W : Type 0) : Type 0 where
  pub outer : W
  pub store : MemStore
  pub events : List Event
  pub readings : ℕ

pub record SagaStep (W : Type 0) : Type 0 where
  pub name : Text
  pub do_step : W → Option Text × W
  pub undo : Option (W → W)

abbrev pub with_step : ProvisioningJob → Text → Text → Text → ProvisioningJob
with_step job name state detail = record job {
  steps = job.steps ++ record { name = name; state = state; detail = detail } ∷ [];
}

module _ {W : Type 0} where
  abbrev pub now : Service W → State W → ℕ
  now svc st = svc.clock st.readings

  abbrev pub tick : State W → State W
  tick st = record st { readings = st.readings + 1 }

  -- `_ = s.store.UpdateTenant(ctx, t)` and `_ = s.store.UpdateJob(ctx, job)`.
  unfoldable pub put_tenant : State W → Tenant → State W
  unfolding update_tenant
  put_tenant st t = record st { store = (update_tenant st.store t).1 }

  unfoldable pub put_job : State W → ProvisioningJob → State W
  unfolding update_job
  put_job st j = record st { store = (update_job st.store j).1 }

  -- `Service.record`.
  unfoldable pub record_event : Service W → State W → Text → Text → Text → Text → State W
  record_event svc st slug actor action detail =
      if svc.audited
      then record (tick st) {
        events =
            st.events
            ++ record {
              time = now svc st;
              org_id = slug;
              actor = actor;
              action = action;
              target = slug;
              metadata = if text_beq detail [] then [] else (lit "detail", detail) ∷ [];
            }
              ∷ [];
      }
      else st

  -- The undo of the steps that are done, latest first.
  unfoldable pub compensate : List (SagaStep W) → W → W
  compensate [] w = w
  compensate (d ∷ ds) w = elim d.undo [ none ↦ compensate ds w | some u ↦ compensate ds (u w) ]

  -- The loop over the steps; `finished` holds those that are done, latest first.
  unfoldable pub run_saga :
      State W
      → ProvisioningJob
      → List (SagaStep W)
      → List (SagaStep W)
      → Option Text × ProvisioningJob × State W
  unfolding put_job compensate
  run_saga st job finished [] = (none, job, st)
  run_saga st job finished (s ∷ ss) =
      let st1 = put_job st (with_step job s.name (lit "pending") []) in
      let (e, w) = s.do_step st1.outer in
      let good = with_step job s.name (lit "done") [] in
      let rest = run_saga (put_job (record st1 { outer = w }) good) good (s ∷ finished) ss in
      elim e [
        | none ↦ rest
        | some msg ↦
            let bad = with_step job s.name (lit "failed") msg in
            (
              some (lit "step " ++ (s.name ++ (lit ": " ++ msg))),
              bad,
              record (put_job (record st1 { outer = w }) bad) { outer = compensate finished w },
            )
      ]
