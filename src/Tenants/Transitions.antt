-- ===== src/Tenants/Transitions.antt =====
-- service.go and handlers.go: the life cycle of a tenant's row.
use mcp_gateway_w.Prelude.{
  ◌≡◌, refl, sym, ap, subst, ◌∙◌, inl, inr, true, false, ◌++◌, Option, Option-cases, none, some,
  Text, lit, eq_refl, arith, Bool-cases,
}
use mcp_gateway_w.Prelude.Dict.{lookup}
use mcp_gateway_w.Idp.{Keycloak}
use mcp_gateway_w.Tenants.{Status, active, suspended, deleting, deleted, Tenant, get_tenant}
use mcp_gateway_w.Authz.{Principal}
use mcp_gateway_w.Tenants.Saga.{Service, State, now, tick, put_tenant}
use mcp_gateway_w.Tenants.Lifecycle.{
  Answered, on_tenant, is_going, is_suspended, suspend_tenant, suspend, resume_tenant, resume,
  delete_tenant, delete, retention_days, purge, add_days,
}
use mcp_gateway_w.Tenants.Handlers.{
  Request, creates, lists, gets, gets_job, suspends, resumes, deletes, handle, create_with,
}
use mcp_gateway_w.Tenants.Rows.{
  Moves, suspending, resumes_it, deleting_it, failing, status_at, IsKeyed, Changes, Sets-trans,
  put_tenant-Sets, record_event-tenants, switch_realm-tenants, is_going-deleted, is_suspended-eq,
  Changes-IsKeyed, insert-Changes,
}
use mcp_gateway_w.Tenants.Creation.{provision-Changes}

module _ {W : Type 0} where
  on_tenant-Changes :
      (st : State W) (o : Option Tenant) (k : Option (Keycloak W))
      (f : Keycloak W → Tenant → Answered × State W)
      → ((kc : Keycloak W) (t : Tenant)
          → o ≡ some t
          → Changes st.store.tenants (f kc t).1.store.tenants)
      → Changes st.store.tenants (on_tenant st o k f).1.store.tenants
  unfolding on_tenant
  on_tenant-Changes st none k f h = inl refl
  on_tenant-Changes st (some t) none f h = inl refl
  on_tenant-Changes st (some t) (some kc) f h = h kc t refl

  suspend-Changes :
      (svc : Service W) (st : State W) (slug actor : Text)
      → IsKeyed st.store.tenants
      → Changes st.store.tenants (suspend svc st slug actor).1.store.tenants
  unfolding suspend suspend_tenant get_tenant
  suspend-Changes svc st slug actor h =
      on_tenant-Changes st (lookup slug st.store.tenants) svc.kc _ (λ kc t e.
        elim (Bool-cases (is_going t.status)) [
          | inl b ↦ inl (cc b)
          | inr b ↦
              let n = now svc st in
              let t1 : Tenant = record t {
                status = suspended;
                suspended_at = some n;
                updated_at = n;
              } in
              let e1 : lookup t.slug st.store.tenants ≡ some t =
                ap (λ x. lookup x st.store.tenants) (h slug t e) ∙ e in
              rw b (
                insert-Changes _ _ t1 t e1
                  (suspending t.status (is_going-deleted t.status b).0
                    (is_going-deleted t.status b).1)
                  (switch_realm-tenants svc kc st slug false t1 t actor (lit "tenant.suspend") e1))
        ])

  resume-Changes :
      (svc : Service W) (st : State W) (slug actor : Text)
      → IsKeyed st.store.tenants
      → Changes st.store.tenants (resume svc st slug actor).1.store.tenants
  unfolding resume resume_tenant get_tenant
  resume-Changes svc st slug actor h =
      on_tenant-Changes st (lookup slug st.store.tenants) svc.kc _ (λ kc t e.
        elim (Bool-cases (is_suspended t.status)) [
          | inr b ↦ inl (cc b)
          | inl b ↦
              let t1 : Tenant = record t {
                status = active;
                suspended_at = none;
                updated_at = now svc st;
              } in
              let e1 : lookup t.slug st.store.tenants ≡ some t =
                ap (λ x. lookup x st.store.tenants) (h slug t e) ∙ e in
              rw b (
                insert-Changes _ _ t1 t e1
                  (subst (λ s. Moves (some s) active) (sym (is_suspended-eq t.status b))
                    (inl resumes_it))
                  (switch_realm-tenants svc kc st slug true t1 t actor (lit "tenant.resume") e1))
        ])

  delete_tenant-Changes :
      (svc : Service W) (kc : Keycloak W) (st : State W) (slug actor : Text) (t : Tenant)
      → lookup t.slug st.store.tenants ≡ some t
      → Changes st.store.tenants (delete_tenant svc kc st slug actor t).1.store.tenants
  unfolding delete_tenant
  delete_tenant-Changes svc kc st slug actor t e1 =
      let d = st.store.tenants in
      let n = now svc st in
      let t1 : Tenant = record t { status = deleting; updated_at = n } in
      let st1 = put_tenant (tick st) t1 in
      let x = kc.delete_realm (purge svc st1.outer slug) slug in
      let st2 : State W = record st1 { outer = x.1 } in
      let until = add_days n (retention_days svc.cfg.audit_retention_days) in
      let gone : Tenant = record t1 {
        status = deleted;
        deleted_at = some n;
        audit_retention_until = some until;
        subdomain_ready = false;
      } in
      let kept : Tenant = record t1 { status = Status.failed; updated_at = now svc st2 } in
      let s1 = put_tenant-Sets (tick st) t1 t e1 in
      let stored : lookup t.slug st1.store.tenants ≡ some t1 =
        s1 t.slug ∙ ground (arith, eq_refl t.slug) in
      let was : status_at t.slug d ≡ some t.status = cc e1 in
      elim (Option-cases x.0) [
        | inl y ↦
            let q : (delete_tenant svc kc st slug actor t).1.store.tenants
                ≡ (put_tenant st2 gone).store.tenants =
              cc (
                y,
                record_event-tenants svc (put_tenant st2 gone) slug actor (lit "tenant.delete")
                    (lit "audit retained until " ++ svc.rfc3339 until),
              ) in
            let s2 = Sets-trans t1 gone _ _ _ refl s1 (put_tenant-Sets st2 gone t1 stored) in
            inr (
              gone,
              (λ k. ap (lookup k) q ∙ s2 k),
              subst (λ o. Moves o deleted) (sym was) (deleting_it t.status),
            )
        | inr (m, y) ↦
            let q : (delete_tenant svc kc st slug actor t).1.store.tenants
                ≡ (put_tenant (tick st2) kept).store.tenants =
              cc y in
            let s2 = Sets-trans t1 kept _ _ _ refl s1 (put_tenant-Sets (tick st2) kept t1 stored) in
            inr (
              kept,
              (λ k. ap (lookup k) q ∙ s2 k),
              subst (λ o. Moves o Status.failed) (sym was) (failing t.status),
            )
      ]

  delete-Changes :
      (svc : Service W) (st : State W) (slug actor : Text)
      → IsKeyed st.store.tenants
      → Changes st.store.tenants (delete svc st slug actor).1.store.tenants
  unfolding delete get_tenant
  delete-Changes svc st slug actor h =
      on_tenant-Changes st (lookup slug st.store.tenants) svc.kc _ (λ kc t e.
        delete_tenant-Changes svc kc st slug actor t
          (ap (λ x. lookup x st.store.tenants) (h slug t e) ∙ e))

  handle-Changes_only :
      (svc : Service W) (st : State W) (p : Option Principal) (req : Request)
      → IsKeyed st.store.tenants
      → Changes st.store.tenants (handle svc st p req).1.store.tenants
  unfolding handle create_with
  handle-Changes_only svc st p (creates none) h = inl refl
  handle-Changes_only svc st p (creates (some req)) h = provision-Changes svc svc.kc st _ refl
  handle-Changes_only svc st p lists h = inl refl
  handle-Changes_only svc st p (gets slug) h = inl (ground (arith))
  handle-Changes_only svc st p (gets_job id) h = inl (ground (arith))
  handle-Changes_only svc st p (suspends slug) h = suspend-Changes svc st slug _ h
  handle-Changes_only svc st p (resumes slug) h = resume-Changes svc st slug _ h
  handle-Changes_only svc st p (deletes slug) h = delete-Changes svc st slug _ h

  -- If each row stands under its own slug, a request to the operators' API changes at most the row
  -- of one tenant, whose status goes a step of the documented life cycle or one of those that `Beyond`
  -- lists: a suspension of a tenant that is not active, a deletion of one that is neither active nor
  -- suspended. Each row stays under its own slug.
  pub handle-Changes :
      (svc : Service W) (st : State W) (p : Option Principal) (req : Request)
      → IsKeyed st.store.tenants
      → Changes st.store.tenants (handle svc st p req).1.store.tenants
        × IsKeyed (handle svc st p req).1.store.tenants
  handle-Changes svc st p req h =
      let c = handle-Changes_only svc st p req h in (c, Changes-IsKeyed _ _ h c)
