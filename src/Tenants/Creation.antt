-- ===== src/Tenants/Creation.antt =====
-- service.go: the row that `Provision` makes.
use mcp_gateway_w.Prelude.{
  ℕ, ◌≡◌, refl, sym, ap, subst, ◌∙◌, inl, inr, Bool, true, false, [], ◌∷◌, Option, Option-cases,
  none, some, Text, lit, eq_refl, arith, Bool-cases,
}
use mcp_gateway_w.Prelude.Dict.{Dict, lookup, insert, lookup-insert}
use mcp_gateway_w.Idp.{Keycloak, Answer, ok, failed}
use mcp_gateway_w.Tenants.{
  Status, active, Tenant, ProvisioningJob, job_succeeded, job_compensated, MemStore, create_tenant,
  get_tenant, create_job,
}
use mcp_gateway_w.Tenants.Slug.{validate_slug}
use mcp_gateway_w.Tenants.Saga.{Service, State, now, tick, put_tenant, put_job}
use mcp_gateway_w.Tenants.Service.{
  ProvisionRequest, finish_failed, finish_active, finish, stored, zero_tenant, saga_of,
  run_if_created, new_tenant, new_job, spec_of, realm_step, later_steps, start, check_realm,
  provision_with, provision,
}
use mcp_gateway_w.Tenants.Rows.{
  Moves, provisions, fails_to_provision, status_at, Sets, Changes, Sets-trans, put_tenant-Sets,
  put_job-tenants, record_event-tenants, run_saga-tenants,
}

module _ {W : Type 0} where
  stored-slug :
      (st : State W) (req : ProvisionRequest) (d : Dict Tenant) (n : ℕ)
      → st.store.tenants ≡ insert req.slug (new_tenant req n) d
      → stored st req.slug ≡ new_tenant req n
  unfolding get_tenant new_tenant
  stored-slug st req d n e =
      let q : lookup req.slug st.store.tenants ≡ some (new_tenant req n) =
        ap (lookup req.slug) e
        ∙ (lookup-insert req.slug req.slug (new_tenant req n) d
            ∙ ground (arith, eq_refl req.slug)) in
      ap (λ o. elim o [ none ↦ zero_tenant | some t ↦ t ]) q

  put_new-Changes :
      (st : State W) (req : ProvisionRequest) (d : Dict Tenant) (n : ℕ) (u : Tenant)
      → u.slug ≡ req.slug
      → lookup req.slug d ≡ none
      → st.store.tenants ≡ insert req.slug (new_tenant req n) d
      → Moves none u.status
      → Changes d (put_tenant st u).store.tenants
  unfolding new_tenant
  put_new-Changes st req d n u us h e m =
      let t = new_tenant req n in
      let q : lookup u.slug st.store.tenants ≡ some t =
        ap (λ k. lookup k st.store.tenants) us
        ∙ (ap (lookup req.slug) e
            ∙ (lookup-insert req.slug req.slug t d ∙ ground (arith, eq_refl req.slug))) in
      let s1 : Sets t d st.store.tenants = λ k. ap (lookup k) e ∙ lookup-insert req.slug k t d in
      let s2 = Sets-trans t u _ _ _ (sym us) s1 (put_tenant-Sets st u t q) in
      let none_at : status_at req.slug d ≡ none = cc h in
      inr (
        u,
        s2,
        subst (λ k. Moves (status_at k d) u.status) (sym us)
            (subst (λ o. Moves o u.status) (sym none_at) m),
      )

  finish-Changes :
      (svc : Service W) (req : ProvisionRequest) (d : Dict Tenant) (n : ℕ)
      (r : Option Text × ProvisioningJob × State W)
      → lookup req.slug d ≡ none
      → r.2.store.tenants ≡ insert req.slug (new_tenant req n) d
      → Changes d (finish svc req r).1.store.tenants
  unfolding finish finish_active finish_failed new_tenant
  finish-Changes svc req d n (none, job, st) h e =
      let u : Tenant = record (stored st req.slug) {
        status = active;
        subdomain_ready = true;
        updated_at = now svc st;
      } in
      let us = ap (λ t. t.slug) (stored-slug st req d n e) in
      let st1 = tick (put_tenant (tick st) u) in
      let j : ProvisioningJob = record job {
        status = job_succeeded;
        updated_at = now svc (put_tenant (tick st) u);
      } in
      let q =
        record_event-tenants svc (put_job st1 j) req.slug req.actor
          (lit "tenant.provision.succeeded") []
        ∙ put_job-tenants st1 j in
      subst (Changes d) (sym q) (put_new-Changes (tick st) req d n u us h e (inl provisions))
  finish-Changes svc req d n (some msg, job, st) h e =
      let u : Tenant = record (stored st req.slug) {
        status = Status.failed;
        updated_at = now svc st;
      } in
      let us = ap (λ t. t.slug) (stored-slug st req d n e) in
      let st1 = tick (put_tenant (tick st) u) in
      let j : ProvisioningJob = record job {
        status = job_compensated;
        error = msg;
        updated_at = now svc (put_tenant (tick st) u);
      } in
      let q =
        record_event-tenants svc (put_job st1 j) req.slug req.actor (lit "tenant.provision.failed")
          msg
        ∙ put_job-tenants st1 j in
      subst (Changes d) (sym q)
        (put_new-Changes (tick st) req d n u us h e (inl fails_to_provision))

  created :
      (st : State W) (t : Tenant)
      → lookup t.slug st.store.tenants ≡ none
      → create_tenant st.store t
        ≡ (none, record st.store { tenants = insert t.slug t st.store.tenants })
  unfolding create_tenant
  created st t h = cc h

  saga_of-tenants :
      (svc : Service W) (kc : Keycloak W) (st : State W) (req : ProvisionRequest) (store : MemStore)
      → (saga_of svc kc st req store).2.store.tenants ≡ store.tenants
  unfolding saga_of create_job
  saga_of-tenants svc kc st req store =
      let job = new_job (svc.new_job_id st.readings) req.slug (now svc st) in
      let spec = spec_of svc.cfg req in
      run_saga-tenants (realm_step kc spec ∷ later_steps kc spec)
        (record (tick st) { store = create_job store job }) job []

  start-Changes :
      (svc : Service W) (kc : Keycloak W) (st : State W) (req : ProvisionRequest)
      → lookup req.slug st.store.tenants ≡ none
      → Changes st.store.tenants (start svc kc st req).1.store.tenants
  unfolding start run_if_created new_tenant
  start-Changes svc kc st req h =
      let t = new_tenant req (now svc st) in
      let store : MemStore = record st.store { tenants = insert t.slug t st.store.tenants } in
      rw (created st t h) (
        finish-Changes svc req st.store.tenants (now svc st) (saga_of svc kc st req store) h
          (saga_of-tenants svc kc st req store))

  check_realm-Changes :
      (svc : Service W) (kc : Keycloak W) (st : State W) (req : ProvisionRequest) (a : Answer Bool)
      → kc.realm_exists st.outer req.slug ≡ a
      → lookup req.slug st.store.tenants ≡ none
      → Changes st.store.tenants (check_realm svc kc st req).1.store.tenants
  unfolding check_realm
  check_realm-Changes svc kc st req (failed m) e h = inl (cc e)
  check_realm-Changes svc kc st req (ok true) e h = inl (cc e)
  check_realm-Changes svc kc st req (ok false) e h =
      let q : check_realm svc kc st req ≡ start svc kc st req = cc e in
      subst (λ r. Changes st.store.tenants r.1.store.tenants) (sym q)
        (start-Changes svc kc st req h)

  provision_with-Changes :
      (svc : Service W) (kc : Keycloak W) (st : State W) (req : ProvisionRequest)
      → Changes st.store.tenants (provision_with svc kc st req).1.store.tenants
  unfolding provision_with get_tenant
  provision_with-Changes svc kc st req =
      elim (Bool-cases (validate_slug req.slug svc.cfg.reserved_slugs)) [
        | inr b ↦ inl (cc b)
        | inl b ↦ elim (Option-cases (lookup req.slug st.store.tenants)) [
          | inr (t, e) ↦ inl (cc (b, e))
          | inl e ↦ rw (b, e) (check_realm-Changes svc kc st req _ refl e)
        ]
      ]

  pub provision-Changes :
      (svc : Service W) (k : Option (Keycloak W)) (st : State W) (req : ProvisionRequest)
      → svc.kc ≡ k
      → Changes st.store.tenants (provision svc st req).1.store.tenants
  unfolding provision
  provision-Changes svc none st req e = inl (cc e)
  provision-Changes svc (some kc) st req e = rw e (provision_with-Changes svc kc st req)
