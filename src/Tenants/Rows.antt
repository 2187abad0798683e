-- ===== src/Tenants/Rows.antt =====
-- service.go and store.go: how the operations change the rows of the tenants.
use mcp_gateway_w.Prelude.{
  ◌≡◌, ◌≢◌, refl, sym, ap, subst, ◌∙◌, ◌⊎◌, inl, inr, Bool, true, false, List, [], ◌∷◌, Option,
  Option-cases, none, some, Text, lit, text_beq, text_eq_iff, arith, if◌then◌else◌,
}
use mcp_gateway_w.Prelude.Dict.{Dict, lookup, insert, lookup-insert}
use mcp_gateway_w.Idp.{Keycloak}
use mcp_gateway_w.Tenants.{
  Status, unset, provisioning, active, suspended, deleting, deleted, Tenant, ProvisioningJob,
  update_tenant, update_job,
}
use mcp_gateway_w.Tenants.Saga.{
  Service, State, SagaStep, tick, put_tenant, put_job, record_event, run_saga, with_step,
}
use mcp_gateway_w.Tenants.Lifecycle.{is_going, is_suspended, switch_realm}

-- The life cycle of specs/003-tenant-provisioning/data-model.md, from before a request to after it;
-- `none` is no tenant.
pub data Documented : Option Status → Status → Type 0 where
  provisions : Documented none active
  fails_to_provision : Documented none Status.failed
  suspends_it : Documented (some active) suspended
  resumes_it : Documented (some suspended) active
  deletes_active : Documented (some active) deleted
  deletes_suspended : Documented (some suspended) deleted
  fails_on_active : Documented (some active) Status.failed
  fails_on_suspended : Documented (some suspended) Status.failed

-- A status from which the life cycle has no deletion.
pub data NotDeletable : Status → Type 0 where
  from_unset : NotDeletable unset
  from_provisioning : NotDeletable provisioning
  from_deleting : NotDeletable deleting
  from_deleted : NotDeletable deleted
  from_failed : NotDeletable Status.failed

-- What the code does beyond it: `Suspend` refuses only a tenant that is deleted or being deleted, and
-- `Delete` refuses none.
pub data Beyond : Option Status → Status → Type 0 where
  suspends_unset : Beyond (some unset) suspended
  suspends_provisioning : Beyond (some provisioning) suspended
  suspends_again : Beyond (some suspended) suspended
  suspends_failed : Beyond (some Status.failed) suspended
  deletes_anyway : {s : Status} → NotDeletable s → Beyond (some s) deleted
  fails_anyway : {s : Status} → NotDeletable s → Beyond (some s) Status.failed

abbrev pub Moves : Option Status → Status → Type 0
Moves o s = Documented o s ⊎ Beyond o s

pub suspending : (s : Status) → s ≢ deleted → s ≢ deleting → Moves (some s) suspended
suspending unset a b = inr suspends_unset
suspending provisioning a b = inr suspends_provisioning
suspending active a b = inl suspends_it
suspending suspended a b = inr suspends_again
suspending deleting a b = absurd (b refl)
suspending deleted a b = absurd (a refl)
suspending Status.failed a b = inr suspends_failed

pub deleting_it : (s : Status) → Moves (some s) deleted
deleting_it unset = inr (deletes_anyway from_unset)
deleting_it provisioning = inr (deletes_anyway from_provisioning)
deleting_it active = inl deletes_active
deleting_it suspended = inl deletes_suspended
deleting_it deleting = inr (deletes_anyway from_deleting)
deleting_it deleted = inr (deletes_anyway from_deleted)
deleting_it Status.failed = inr (deletes_anyway from_failed)

pub failing : (s : Status) → Moves (some s) Status.failed
failing unset = inr (fails_anyway from_unset)
failing provisioning = inr (fails_anyway from_provisioning)
failing active = inl fails_on_active
failing suspended = inl fails_on_suspended
failing deleting = inr (fails_anyway from_deleting)
failing deleted = inr (fails_anyway from_deleted)
failing Status.failed = inr (fails_anyway from_failed)

abbrev pub tenants_of {ℓ} : {W : Type 0} → State W → Dict Tenant
tenants_of st = st.store.tenants

abbrev pub status_at : Text → Dict Tenant → Option Status
status_at k d = elim (lookup k d) [ none ↦ none | some t ↦ some t.status ]

-- Each row stands under its own slug.
abbrev pub IsKeyed : Dict Tenant → Type 0
IsKeyed d = (k : Text) (t : Tenant) → lookup k d ≡ some t → t.slug ≡ k

-- The rows are the same, but for that of `t`.
abbrev pub Sets : Tenant → Dict Tenant → Dict Tenant → Type 0
Sets t d d' = (k : Text) → lookup k d' ≡ (if text_beq t.slug k then some t else lookup k d)

abbrev pub Changes : Dict Tenant → Dict Tenant → Type 0
Changes d d' = (d' ≡ d) ⊎ ((t : Tenant) × Sets t d d' × Moves (status_at t.slug d) t.status)

pub Sets-trans :
    (t u : Tenant) (d e f : Dict Tenant) → t.slug ≡ u.slug → Sets t d e → Sets u e f → Sets u d f
Sets-trans t u d e f s p q k = ground (arith, p k, q k, s)

Sets-IsKeyed : (t : Tenant) (d e : Dict Tenant) → IsKeyed d → Sets t d e → IsKeyed e
Sets-IsKeyed t d e h p k u q = ground (arith, p k, h k u, text_eq_iff t.slug k)

module _ {W : Type 0} where
  tenants-put_tenant :
      (st : State W) (t old : Tenant)
      → lookup t.slug st.store.tenants ≡ some old
      → (put_tenant st t).store.tenants ≡ insert t.slug t st.store.tenants
  unfolding put_tenant update_tenant
  tenants-put_tenant st t old h = cc h

  pub put_tenant-Sets :
      (st : State W) (t old : Tenant)
      → lookup t.slug st.store.tenants ≡ some old
      → Sets t st.store.tenants (put_tenant st t).store.tenants
  put_tenant-Sets st t old h k =
      ap (lookup k) (tenants-put_tenant st t old h) ∙ lookup-insert t.slug k t st.store.tenants

  pub put_job-tenants :
      (st : State W) (j : ProvisioningJob) → (put_job st j).store.tenants ≡ st.store.tenants
  unfolding put_job update_job
  put_job-tenants st j = ground arith

  pub record_event-tenants :
      (svc : Service W) (st : State W) (slug actor action detail : Text)
      → (record_event svc st slug actor action detail).store.tenants ≡ st.store.tenants
  unfolding record_event
  record_event-tenants svc st slug actor action detail = ground arith

  pub run_saga-tenants :
      (steps : List (SagaStep W)) (st : State W) (job : ProvisioningJob) (fin : List (SagaStep W))
      → (run_saga st job fin steps).2.store.tenants ≡ st.store.tenants
  unfolding run_saga
  run_saga-tenants [] st job fin = refl
  run_saga-tenants (s ∷ ss) st job fin =
      let begun = put_job st (with_step job s.name (lit "pending") []) in
      let after : State W = record begun { outer = (s.do_step begun.outer).1 } in
      let good = with_step job s.name (lit "done") [] in
      let p = put_job-tenants st (with_step job s.name (lit "pending") []) in
      elim (Option-cases (s.do_step begun.outer).0) [
        | inl e ↦ cc (
          e,
          run_saga-tenants ss (put_job after good) good (s ∷ fin),
          put_job-tenants after good,
          p,
        )
        | inr (m, e) ↦ cc (e, put_job-tenants after (with_step job s.name (lit "failed") m), p)
      ]

  pub switch_realm-tenants :
      (svc : Service W) (kc : Keycloak W) (st : State W) (slug : Text) (enabled : Bool)
      (t old : Tenant) (actor action : Text)
      → lookup t.slug st.store.tenants ≡ some old
      → let d = (switch_realm svc kc st slug enabled t actor action).1.store.tenants in
        (d ≡ st.store.tenants) ⊎ (d ≡ insert t.slug t st.store.tenants)
  unfolding switch_realm update_tenant
  switch_realm-tenants svc kc st slug enabled t old actor action h =
      elim (Option-cases (kc.set_realm_enabled st.outer slug enabled).0) [
        | inl e ↦ inr (
            cc (
              e,
              h,
              record_event-tenants svc
                  (record (tick st) {
                    outer = (kc.set_realm_enabled st.outer slug enabled).1;
                    store = record st.store { tenants = insert t.slug t st.store.tenants };
                  })
                  slug actor action [],
            ))
        | inr (m, e) ↦ inl (cc e)
      ]

pub is_going-deleted : (s : Status) → is_going s ≡ false → (s ≢ deleted) × (s ≢ deleting)
is_going-deleted s h = ground arith

pub is_suspended-eq : (s : Status) → is_suspended s ≡ true → s ≡ suspended
is_suspended-eq s h = ground arith

pub Changes-IsKeyed : (d e : Dict Tenant) → IsKeyed d → Changes d e → IsKeyed e
Changes-IsKeyed d e h (inl q) = subst IsKeyed (sym q) h
Changes-IsKeyed d e h (inr (t, s, m)) = Sets-IsKeyed t d e h s

pub insert-Changes :
    (d d' : Dict Tenant) (t old : Tenant)
    → lookup t.slug d ≡ some old
    → Moves (some old.status) t.status
    → (d' ≡ d) ⊎ (d' ≡ insert t.slug t d)
    → Changes d d'
insert-Changes d d' t old h m (inl e) = inl e
insert-Changes d d' t old h m (inr e) = inr (
  t,
  (λ k. ap (lookup k) e ∙ lookup-insert t.slug k t d),
  subst (λ o. Moves (elim o [ none ↦ none | some u ↦ some u.status ]) t.status) (sym h) m,
)
