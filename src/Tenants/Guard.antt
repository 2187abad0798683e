-- ===== src/Tenants/Guard.antt =====
-- authz.go, service.go and handlers.go: who may reach the operators' API, and what it refuses.
use mcp_gateway_w.Prelude.{
  ℕ, ◌+◌, ◌*◌, ◌≤◌, ◌≡◌, refl, ◌⊎◌, inl, inr, true, [], ◌∷◌, Option, none, some, Text, lit, bearer,
  arith, Bool-cases,
}
use mcp_gateway_w.Authz.{
  Principal, has_role, Claims, Jwt, JwtValidator, Validated, valid, refused, sprintf, verify,
  validate_for_realm,
}
use mcp_gateway_w.Authz.Binding.{IsJwt, verify-valid}
use mcp_gateway_w.Idp.{Keycloak}
use mcp_gateway_w.Tenants.{deleted, Tenant, get_tenant, err_slug_taken}
use mcp_gateway_w.Tenants.Slug.{validate_slug}
use mcp_gateway_w.Tenants.Saga.{Service, State, now}
use mcp_gateway_w.Tenants.Service.{ProvisionRequest, not_started, provision_with, provision}
use mcp_gateway_w.Tenants.Lifecycle.{
  done, on_tenant, delete_tenant, delete, retention_days, add_days,
}
use mcp_gateway_w.Tenants.Handlers.{Request, Reply, handle, admit, serve_token, serve}

realm-verify :
    {Key : Type 0} (lib : Jwt Key) (v : JwtValidator Key) (raw realm audience : Text)
    (p : Principal)
    → validate_for_realm lib v raw realm audience ≡ valid p
    → verify lib v raw realm audience ≡ valid p
unfolding validate_for_realm
realm-verify lib v raw [] audience p h = ground arith
realm-verify lib v raw (a ∷ s) audience p h = h

module _ {W : Type 0} where
  -- While a row of its slug is kept, whatever its status, a tenant cannot be provisioned: a request
  -- with an accepted slug is refused as taken and changes nothing.
  provision-taken :
      (svc : Service W) (kc : Keycloak W) (st : State W) (req : ProvisionRequest) (t : Tenant)
      → svc.kc ≡ some kc
      → validate_slug req.slug svc.cfg.reserved_slugs ≡ true
      → get_tenant st.store req.slug ≡ some t
      → provision svc st req ≡ (not_started err_slug_taken, st)
  unfolding provision provision_with
  provision-taken svc kc st req t hk hv ht = cc (hk, hv, ht)

  delete_tenant-done :
      (svc : Service W) (kc : Keycloak W) (st : State W) (slug actor : Text) (t u : Tenant)
      → (delete_tenant svc kc st slug actor t).0 ≡ done u
      → (u.status ≡ deleted)
        × (u.deleted_at ≡ some (now svc st))
        × (u.audit_retention_until
            ≡ some (add_days (now svc st) (retention_days svc.cfg.audit_retention_days)))
  unfolding delete_tenant
  delete_tenant-done svc kc st slug actor t u h = ground arith

  on_tenant-done :
      (st : State W) (o : Option Tenant) (k : Option (Keycloak W)) (f : Keycloak W → Tenant → _)
      (u : Tenant)
      → (on_tenant st o k f).0 ≡ done u
      → (kc : Keycloak W) × (t : Tenant) × ((f kc t).0 ≡ done u)
  unfolding on_tenant
  on_tenant-done st none k f u h = ground arith
  on_tenant-done st (some t) none f u h = ground arith
  on_tenant-done st (some t) (some kc) f u h = (kc, t, h)

  -- A tenant that is reported deleted keeps its audit records for at least 365 days from then,
  -- whatever number of days is configured.
  delete-retention :
      (svc : Service W) (st : State W) (slug actor : Text) (u : Tenant)
      → (delete svc st slug actor).0 ≡ done u
      → (n : ℕ) × (until : ℕ) × (u.status ≡ deleted)
        × (u.deleted_at ≡ some n)
        × (u.audit_retention_until ≡ some until)
        × (n + 365 * 86400000000000 ≤ until)
  unfolding delete retention_days
  delete-retention svc st slug actor u h =
      let (kc, t, q) =
        on_tenant-done st (get_tenant st.store slug) svc.kc
          (λ kc t. delete_tenant svc kc st slug actor t) u h in
      let (a, b, c) = delete_tenant-done svc kc st slug actor t u q in
      (
        now svc st,
        add_days (now svc st) (retention_days svc.cfg.audit_retention_days),
        a,
        b,
        c,
        ground arith,
      )

  -- Refused, with the state as it was.
  abbrev pub IsRefused : State W → Reply × State W → Type 0
  IsRefused st r = (r.1 ≡ st) × ((r.0.status ≡ 401) ⊎ (r.0.status ≡ 403))

  admit-valid :
      (svc : Service W) (st : State W) (req : Request) (p : Principal)
      → IsRefused st (admit svc st req (valid p))
        ⊎ ((admit svc st req (valid p) ≡ handle svc st (some p) req)
            × (has_role p (lit "platform-admin") ≡ true))
  unfolding admit
  admit-valid svc st req p = elim (Bool-cases (has_role p (lit "platform-admin"))) [
    | inl e ↦ inr (cc e, e)
    | inr e ↦ inl (cc e, inr (cc e))
  ]

  module _ {Key : Type 0} (lib : Jwt Key) (v : JwtValidator Key) (decode : Text → Claims) where
    abbrev pub IsAdmitted :
        Text → Text → Service W → State W → Request → Text → Reply × State W → Type 0
    IsAdmitted realm audience svc st req tok r =
        (p : Principal) × (validate_for_realm lib v tok realm audience ≡ valid p)
        × (r ≡ handle svc st (some p) req)
        × (has_role p (lit "platform-admin") ≡ true)
        × (p.org_id ≡ realm)
        × ((decode tok).issuer ≡ sprintf v.issuer_template realm)

    admit-admin :
        IsJwt lib decode
        → (realm audience tok : Text) (svc : Service W) (st : State W) (req : Request)
          (x : Validated)
        → validate_for_realm lib v tok realm audience ≡ x
        → IsRefused st (admit svc st req x)
          ⊎ IsAdmitted realm audience svc st req tok (admit svc st req x)
    unfolding admit
    admit-admin ok realm audience tok svc st req (refused e) h = inl (refl, inl refl)
    admit-admin ok realm audience tok svc st req (valid p) h = elim (admit-valid svc st req p) [
      | inl r ↦ inl r
      | inr (q, role) ↦
          let (o, u, i, m) =
            verify-valid lib v decode ok tok realm audience p
              (realm-verify lib v tok realm audience p h) in
          inr (p, h, q, role, o, i)
    ]

    serve_token-admin :
        IsJwt lib decode
        → (realm audience : Text) (svc : Service W) (st : State W) (tok : Text) (req : Request)
        → IsRefused st (serve_token lib v realm audience svc st tok req)
          ⊎ IsAdmitted realm audience svc st req tok
              (serve_token lib v realm audience svc st tok req)
    unfolding serve_token
    serve_token-admin ok realm audience svc st [] req = inl (refl, inl refl)
    serve_token-admin ok realm audience svc st (a ∷ s) req =
        admit-admin ok realm audience (a ∷ s) svc st req _ refl

    -- If the JWT package keeps to `IsJwt`, a request to the operators' API either is answered with
    -- 401 or 403 and changes nothing, or its bearer is a token that the validator accepts for the
    -- platform's realm and audience, issued by that realm, whose principal has the role platform-admin,
    -- and it is handled for this principal.
    pub serve-admin :
        IsJwt lib decode
        → (realm audience : Text) (svc : Service W) (st : State W) (authorization : Text)
          (req : Request)
        → IsRefused st (serve lib v realm audience svc st authorization req)
          ⊎ IsAdmitted realm audience svc st req
              (bearer authorization)
              (serve lib v realm audience svc st authorization req)
    unfolding serve
    serve-admin ok realm audience svc st authorization req =
        serve_token-admin ok realm audience svc st (bearer authorization) req
