-- ===== src/Tenants/Compensation.antt =====
-- service.go: what `Provision` leaves behind when it fails and when it succeeds.
use mcp_gateway_w.Prelude.{
  ◌≡◌, refl, sym, ap, subst, ◌∙◌, Bool, true, false, List, [], ◌∷◌, Option, Option-cases, none,
  some, ◌⊎◌, inl, inr, Text, lit, All, arith,
}
use mcp_gateway_w.Idp.{Keycloak, Answer, ok, failed, Realm, BootstrapSpec}
use mcp_gateway_w.Tenants.{
  Tenant, ProvisioningJob, Error, MemStore, create_tenant, get_tenant, create_job,
}
use mcp_gateway_w.Tenants.Saga.{
  Service, State, SagaStep, now, tick, put_tenant, put_job, record_event, compensate, run_saga,
  with_step,
}
use mcp_gateway_w.Tenants.Service.{
  ProvisionRequest, Provisioned, not_started, compensated, succeeded, spec_of, realm_step,
  later_steps, finish_failed, finish_active, finish, saga_of, run_if_created, new_tenant, new_job,
  start, check_realm, provision_with, provision,
}

-- What the code relies on of the identity provider: its answers about realms are right, and one that
-- it says it deleted is gone.
pub record IsKeycloak {W : Type 0} (kc : Keycloak W) (exists : W → Text → Bool) : Type 0 where
  pub asked : (w : W) (r : Text) (b : Bool) → kc.realm_exists w r ≡ ok b → exists w r ≡ b
  pub deleted : (w w' : W) (r : Text) → kc.delete_realm w r ≡ (none, w') → exists w' r ≡ false

module _ {W : Type 0} where
  abbrev begun : State W → ProvisioningJob → SagaStep W → State W
  begun st job s = put_job st (with_step job s.name (lit "pending") [])

  abbrev after : State W → ProvisioningJob → SagaStep W → State W
  after st job s = record (begun st job s) { outer = (s.do_step st.outer).1 }

  run_saga-nil :
      (st : State W) (job : ProvisioningJob) (fin : List (SagaStep W))
      → (run_saga st job fin []).0 ≡ none
  unfolding run_saga
  run_saga-nil st job fin = refl

  run_saga-good :
      (st : State W) (job : ProvisioningJob) (fin : List (SagaStep W)) (s : SagaStep W)
      (ss : List (SagaStep W))
      → (s.do_step st.outer).0 ≡ none
      → run_saga st job fin (s ∷ ss)
        ≡ run_saga
            (put_job (after st job s) (with_step job s.name (lit "done") []))
            (with_step job s.name (lit "done") [])
            (s ∷ fin)
            ss
  unfolding run_saga put_job
  run_saga-good st job fin s ss e = cc e

  run_saga-bad :
      (st : State W) (job : ProvisioningJob) (fin : List (SagaStep W)) (s : SagaStep W)
      (ss : List (SagaStep W)) (m : Text)
      → (s.do_step st.outer).0 ≡ some m
      → (run_saga st job fin (s ∷ ss)).2.outer ≡ compensate fin (s.do_step st.outer).1
  unfolding run_saga put_job
  run_saga-bad st job fin s ss m e = cc e

module _ {W : Type 0} (P : W → Type 0) where
  compensate-skips :
      (s : SagaStep W) (fin : List (SagaStep W)) (w : W)
      → s.undo ≡ none
      → compensate (s ∷ fin) w ≡ compensate fin w
  unfolding compensate
  compensate-skips s fin w e = cc e

  -- Whatever the steps do, a failure ends in a state that the undo of the finished ones leaves.
  run_saga-undone :
      (steps : List (SagaStep W)) (st : State W) (job : ProvisioningJob)
      (finished : List (SagaStep W))
      → ((w : W) → P (compensate finished w))
      → All (λ s. s.undo ≡ none) steps
      → (msg : Text) → (run_saga st job finished steps).0 ≡ some msg
      → P (run_saga st job finished steps).2.outer
  run_saga-undone [] st job fin hp hs msg h = ground (arith, run_saga-nil st job fin)
  run_saga-undone (s ∷ ss) st job fin hp hs msg h = elim (Option-cases (s.do_step st.outer).0) [
    | inl e ↦
        let q = run_saga-good st job fin s ss e in
        rw q (
          run_saga-undone ss (put_job (after st job s) (with_step job s.name (lit "done") []))
            (with_step job s.name (lit "done") []) (s ∷ fin)
            (λ w. subst P (sym (compensate-skips s fin w hs.0)) (hp w)) hs.1 msg
            (ap (λ r. r.0) (sym q) ∙ h))
    | inr (m, e) ↦ subst P (sym (run_saga-bad st job fin s ss m e)) (hp _)
  ]

abbrev pub has_started : Provisioned → Bool
has_started (not_started e) = false
has_started (compensated t j e) = true
has_started (succeeded t j) = true

module _ {W : Type 0} where
  provision-eq :
      (svc : Service W) (kc : Keycloak W) (st : State W) (req : ProvisionRequest)
      → svc.kc ≡ some kc
      → provision svc st req ≡ provision_with svc kc st req
  unfolding provision
  provision-eq svc kc st req hk = cc hk

  realm_absent :
      (svc : Service W) (kc : Keycloak W) (st : State W) (req : ProvisionRequest) (a : Answer Bool)
      → kc.realm_exists st.outer req.slug ≡ a
      → has_started (check_realm svc kc st req).0 ≡ true
      → (a ≡ ok false) × (check_realm svc kc st req ≡ start svc kc st req)
  unfolding check_realm
  realm_absent svc kc st req (failed m) e h = ground (arith, e)
  realm_absent svc kc st req (ok true) e h = ground (arith, e)
  realm_absent svc kc st req (ok false) e h = (refl, cc e)

  provision_with-started :
      (svc : Service W) (kc : Keycloak W) (st : State W) (req : ProvisionRequest)
      → has_started (provision_with svc kc st req).0 ≡ true
      → (get_tenant st.store req.slug ≡ none)
        × (provision_with svc kc st req ≡ check_realm svc kc st req)
  unfolding provision_with
  provision_with-started svc kc st req h = ground arith

  outer-record_event :
      (svc : Service W) (st : State W) (slug actor action detail : Text)
      → (record_event svc st slug actor action detail).outer ≡ st.outer
  unfolding record_event
  outer-record_event svc st slug actor action detail = ground arith

  finish-compensated :
      (svc : Service W) (req : ProvisionRequest) (r : Option Text × ProvisioningJob × State W)
      (t : Tenant) (j : ProvisioningJob) (e : Error)
      → (finish svc req r).0 ≡ compensated t j e
      → (msg : Text) × (r.0 ≡ some msg) × ((finish svc req r).1.outer ≡ r.2.outer)
  unfolding finish finish_failed finish_active put_tenant put_job
  finish-compensated svc req (none, job, st) t j e h = ground arith
  finish-compensated svc req (some msg, job, st) t j e h =
      (msg, refl, outer-record_event svc _ _ _ _ _)

  run_if_created-started :
      (svc : Service W) (kc : Keycloak W) (st : State W) (req : ProvisionRequest)
      (c : Option Error × MemStore)
      → has_started (run_if_created svc kc st req c).0 ≡ true
      → run_if_created svc kc st req c ≡ finish svc req (saga_of svc kc st req c.1)
  unfolding run_if_created
  run_if_created-started svc kc st req (some err, store) h = ground arith
  run_if_created-started svc kc st req (none, store) h = refl

  -- A run that is started is a run of the saga on a realm that is not there.
  provision-saga :
      (svc : Service W) (kc : Keycloak W) (st : State W) (req : ProvisionRequest)
      → svc.kc ≡ some kc
      → has_started (provision svc st req).0 ≡ true
      → (kc.realm_exists st.outer req.slug ≡ ok false)
        × (get_tenant st.store req.slug ≡ none)
        × (provision svc st req
            ≡ finish svc req
                (saga_of svc kc st req (create_tenant st.store (new_tenant req (now svc st))).1))
  unfolding start
  provision-saga svc kc st req hk h =
      let q = provision-eq svc kc st req hk in
      let (n, q1) =
        provision_with-started svc kc st req (subst (λ r. has_started r.0 ≡ true) q h) in
      let (b, q2) =
        realm_absent svc kc st req _ refl (subst (λ r. has_started r.0 ≡ true) (q ∙ q1) h) in
      let q3 =
        run_if_created-started svc kc st req _
          (subst (λ r. has_started r.0 ≡ true) (q ∙ q1 ∙ q2) h) in
      (b, n, q ∙ q1 ∙ q2 ∙ q3)

  later_steps-undo :
      (kc : Keycloak W) (spec : BootstrapSpec) → All (λ s. s.undo ≡ none) (later_steps kc spec)
  unfolding later_steps
  later_steps-undo kc spec = (refl, (refl, (refl, (refl, tt))))

  -- The request that makes the realm was answered with an error.
  abbrev pub IsUnmade : Keycloak W → W → Realm → Type 0
  IsUnmade kc w r = (msg : Text) × ((kc.create_realm w r).0 ≡ some msg)

  saga_of-failed :
      (svc : Service W) (kc : Keycloak W) (exists : W → Text → Bool)
      → IsKeycloak kc exists
      → ((w : W) (r : Text) → (kc.delete_realm w r).0 ≡ none)
      → (st : State W) (req : ProvisionRequest) (store : MemStore) (msg : Text)
      → (saga_of svc kc st req store).0 ≡ some msg
      → (exists (saga_of svc kc st req store).2.outer req.slug ≡ false)
        ⊎ IsUnmade kc st.outer (spec_of svc.cfg req).realm
  unfolding saga_of realm_step spec_of compensate
  saga_of-failed svc kc exists law dels st req store msg h =
      let spec = spec_of svc.cfg req in
      let job = new_job (svc.new_job_id st.readings) req.slug (now svc st) in
      let st1 : State W = record (tick st) { store = create_job store job } in
      let s = realm_step kc spec in
      let P : W → Type 0 = λ w. exists w req.slug ≡ false in
      elim (Option-cases (kc.create_realm st.outer spec.realm).0) [
        | inl e ↦
            let q = run_saga-good st1 job [] s (later_steps kc spec) e in
            let undo : (w : W) → P (compensate (s ∷ []) w) =
              λ w. law.deleted w _ req.slug (cc (dels w req.slug)) in
            let r =
              run_saga-undone P (later_steps kc spec)
                (put_job (after st1 job s) (with_step job s.name (lit "done") []))
                (with_step job s.name (lit "done") []) (s ∷ []) undo (later_steps-undo kc spec) msg
                (ap (λ r. r.0) (sym q) ∙ h) in
            inl (subst (λ r. P r.2.outer) (sym q) r)
        | inr made ↦ inr made
      ]

module _ {W : Type 0} where
  -- A tenant whose provisioning was started and failed had no realm before, and has none then: it was
  -- not made, or it is gone. Or the very request that makes the realm was answered with an error; then
  -- nothing is undone, and a realm that was made all the same stays. The identity provider answers
  -- every deletion, and behaves as `IsKeycloak` says.
  pub provision-compensated :
      (svc : Service W) (kc : Keycloak W) (exists : W → Text → Bool)
      → svc.kc ≡ some kc
      → IsKeycloak kc exists
      → ((w : W) (r : Text) → (kc.delete_realm w r).0 ≡ none)
      → (st : State W) (req : ProvisionRequest) (t : Tenant) (j : ProvisioningJob) (e : Error)
      → (provision svc st req).0 ≡ compensated t j e
      → (exists st.outer req.slug ≡ false)
        × ((exists (provision svc st req).1.outer req.slug ≡ false)
            ⊎ IsUnmade kc st.outer (spec_of svc.cfg req).realm)
  provision-compensated svc kc exists hk law dels st req t j e h =
      let (b, n, q) = provision-saga svc kc st req hk (rw h refl) in
      let (msg, f, o) = finish-compensated svc req _ t j e (ap (λ r. r.0) (sym q) ∙ h) in
      (
        law.asked st.outer req.slug false b,
        elim (saga_of-failed svc kc exists law dels st req _ msg f) [
          | inl gone ↦ inl (
              subst (λ r. exists r.1.outer req.slug ≡ false) (sym q)
                (subst (λ w. exists w req.slug ≡ false) (sym o) gone))
          | inr unmade ↦ inr unmade
        ],
      )
