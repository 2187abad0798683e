-- ===== src/Tenants/Lifecycle.antt =====
-- services/control-plane/internal/tenants/service.go: `Suspend`, `Resume` and `Delete`. A day of
-- `AddDate` has 24 hours, as it has in UTC.
use mcp_gateway_w.Prelude.{
  Option, ℕ, ◌+◌, ◌*◌, Bool, true, false, [], ◌++◌, none, some, Text, lit, ltb, ℤ, pos_part,
  if◌then◌else◌,
}
use mcp_gateway_w.Idp.{Keycloak}
use mcp_gateway_w.Tenants.{
  Status, active, suspended, deleting, deleted, Tenant, Error, err_not_found, err_conflict,
  err_not_configured, other, get_tenant, update_tenant,
}
use mcp_gateway_w.Tenants.Saga.{Service, State, now, tick, put_tenant, record_event}

pub data Answered : Type 0 where
  done : Tenant → Answered
  error : Error → Answered

-- `time.AddDate(0, 0, days)`.
abbrev pub add_days : ℕ → ℕ → ℕ
add_days t days = t + days * 86400000000000

unfoldable pub retention_days : ℤ → ℕ
retention_days z = if ltb (pos_part z) 365 then 365 else pos_part z

-- `t.Status == StatusDeleted || t.Status == StatusDeleting`.
abbrev pub is_going : Status → Bool
is_going s = elim s [ deleted ↦ true | deleting ↦ true | _ ↦ false ]

abbrev pub is_suspended : Status → Bool
is_suspended s = elim s [ suspended ↦ true | _ ↦ false ]

module _ {W : Type 0} where
  -- How all three begin: the tenant is read, then the identity provider must be configured.
  unfoldable pub on_tenant :
      State W
      → Option Tenant
      → Option (Keycloak W)
      → (Keycloak W → Tenant → Answered × State W)
      → Answered × State W
  on_tenant st none k f = (error err_not_found, st)
  on_tenant st (some t) none f = (error err_not_configured, st)
  on_tenant st (some t) (some kc) f = f kc t

  -- `SetRealmEnabled`, and the tenant's row after it.
  unfoldable pub switch_realm :
      Service W → Keycloak W → State W → Text → Bool → Tenant → Text → Text → Answered × State W
  unfolding record_event
  switch_realm svc kc st slug enabled t actor action =
      let (e, w) = kc.set_realm_enabled st.outer slug enabled in
      let st1 = record (tick st) { outer = w } in
      let (f, store) = update_tenant st.store t in
      elim e [
        | some msg ↦ (error (other msg), record st { outer = w })
        | none ↦ elim f [
          | some err ↦ (error err, st1)
          | none ↦ (done t, record_event svc (record st1 { store = store }) slug actor action [])
        ]
      ]

  unfoldable pub suspend_tenant :
      Service W → Keycloak W → State W → Text → Text → Tenant → Answered × State W
  unfolding switch_realm
  suspend_tenant svc kc st slug actor t =
      let n = now svc st in
      let t1 = record t { status = suspended; suspended_at = some n; updated_at = n } in
      let rest = switch_realm svc kc st slug false t1 actor (lit "tenant.suspend") in
      if is_going t.status then (error err_conflict, st) else rest

  unfoldable pub suspend : Service W → State W → Text → Text → Answered × State W
  unfolding suspend_tenant on_tenant
  suspend svc st slug actor =
      on_tenant st (get_tenant st.store slug) svc.kc (λ kc t. suspend_tenant svc kc st slug actor t)

  unfoldable pub resume_tenant :
      Service W → Keycloak W → State W → Text → Text → Tenant → Answered × State W
  unfolding switch_realm
  resume_tenant svc kc st slug actor t =
      let t1 = record t { status = active; suspended_at = none; updated_at = now svc st } in
      let rest = switch_realm svc kc st slug true t1 actor (lit "tenant.resume") in
      if is_suspended t.status then rest else (error err_conflict, st)

  unfoldable pub resume : Service W → State W → Text → Text → Answered × State W
  unfolding resume_tenant on_tenant
  resume svc st slug actor =
      on_tenant st (get_tenant st.store slug) svc.kc (λ kc t. resume_tenant svc kc st slug actor t)

  abbrev pub purge : Service W → W → Text → W
  purge svc w slug = elim svc.purger [ none ↦ w | some f ↦ f w slug ]

  unfoldable pub delete_tenant :
      Service W → Keycloak W → State W → Text → Text → Tenant → Answered × State W
  unfolding put_tenant record_event retention_days
  delete_tenant svc kc st slug actor t =
      let n = now svc st in
      let t1 = record t { status = deleting; updated_at = n } in
      let st1 = put_tenant (tick st) t1 in
      let (e, w) = kc.delete_realm (purge svc st1.outer slug) slug in
      let st2 = record st1 { outer = w } in
      let t2 = record t1 {
        status = deleted;
        deleted_at = some n;
        audit_retention_until = some (add_days n (retention_days svc.cfg.audit_retention_days));
        subdomain_ready = false;
        updated_at = n;
      } in
      elim e [
        | some msg ↦ (
          error (other msg),
          put_tenant (tick st2) (record t1 { status = Status.failed; updated_at = now svc st2 }),
        )
        | none ↦ (
          done t2,
          record_event svc (put_tenant st2 t2) slug actor (lit "tenant.delete") (
              lit "audit retained until "
              ++ svc.rfc3339 (add_days n (retention_days svc.cfg.audit_retention_days))),
        )
      ]

  unfoldable pub delete : Service W → State W → Text → Text → Answered × State W
  unfolding delete_tenant on_tenant
  delete svc st slug actor =
      on_tenant st (get_tenant st.store slug) svc.kc (λ kc t. delete_tenant svc kc st slug actor t)
