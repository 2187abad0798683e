-- ===== src/Tenants/Handlers.antt =====
-- services/control-plane/internal/tenants/handlers.go, authz.go and routes.go: the operators' API. An
-- HTTP answer is its status with what it carries; the body is bound by the web framework, which gives
-- `none` for one that cannot be read.
use mcp_gateway_w.Prelude.{
  ℕ, not, List, [], ◌∷◌, Option, none, some, Text, lit, bearer, if◌then◌else◌,
}
use mcp_gateway_w.Authz.{
  Principal, has_role, Jwt, JwtValidator, Validated, valid, refused, validate_for_realm,
}
use mcp_gateway_w.Tenants.{
  Tenant, ProvisioningJob, Error, err_not_found, err_slug_taken, err_invalid_slug, err_conflict,
  err_not_configured, other, get_tenant, list_tenants, get_job,
}
use mcp_gateway_w.Tenants.Saga.{Service, State}
use mcp_gateway_w.Tenants.Service.{Provisioned, not_started, compensated, succeeded, provision}
use mcp_gateway_w.Tenants.Lifecycle.{Answered, done, error, suspend, resume, delete}

pub data Body : Type 0 where
  message : Text → Body
  provisioned_body : Option (Tenant × ProvisioningJob) → Body
  tenant_body : Tenant → Body
  job_body : ProvisioningJob → Body
  tenants_body : List Tenant → Body

pub record Reply : Type 0 where
  pub status : ℕ
  pub body : Body

abbrev reply : ℕ → Body → Reply
reply status body = record { status = status; body = body }

pub record ProvisionReq : Type 0 where
  pub slug : Text
  pub display_name : Text
  pub admin_email : Text

-- The switch of `Create` on the error.
unfoldable pub create_error : Error → Option (Tenant × ProvisioningJob) → Reply
create_error err_slug_taken tj = reply 409 (message (lit "slug already exists or reserved"))
create_error err_invalid_slug tj = reply 422 (message (lit "invalid tenant slug"))
create_error err_not_configured tj = reply 503 (message (lit "provisioning not configured"))
create_error err_not_found tj = reply 502 (provisioned_body tj)
create_error err_conflict tj = reply 502 (provisioned_body tj)
create_error (other msg) tj = reply 502 (provisioned_body tj)

unfoldable pub create_reply : Provisioned → Reply
unfolding create_error
create_reply (not_started e) = create_error e none
create_reply (compensated t j e) = create_error e (some (t, j))
create_reply (succeeded t j) = reply 202 (provisioned_body (some (t, j)))

-- The switch of `lifecycle` on the error.
unfoldable pub lifecycle_reply : Answered → Reply
lifecycle_reply (error err_not_found) = reply 404 (message (lit "tenant not found"))
lifecycle_reply (error err_conflict) = reply 409 (message (lit "tenant in a conflicting state"))
lifecycle_reply (error err_not_configured) = reply 503 (message (lit "provisioning not configured"))
lifecycle_reply (error err_slug_taken) = reply 500 (message (lit "lifecycle action failed"))
lifecycle_reply (error err_invalid_slug) = reply 500 (message (lit "lifecycle action failed"))
lifecycle_reply (error (other msg)) = reply 500 (message (lit "lifecycle action failed"))
lifecycle_reply (done t) = reply 202 (tenant_body t)

pub data Request : Type 0 where
  creates : Option ProvisionReq → Request
  lists : Request
  gets : Text → Request
  gets_job : Text → Request
  suspends : Text → Request
  resumes : Text → Request
  deletes : Text → Request

abbrev actor : Option Principal → Text
actor none = []
actor (some p) = p.user_id

module _ {W : Type 0} where
  unfoldable pub create_with : Service W → State W → Text → ProvisionReq → Reply × State W
  unfolding create_reply provision
  create_with svc st actor_id req =
      let (r, st1) = provision svc st (record {
        slug = req.slug;
        display_name = req.display_name;
        admin_email = req.admin_email;
        actor = actor_id;
      }) in
      (create_reply r, st1)

  -- The handler for each of the routes.
  unfoldable pub handle : Service W → State W → Option Principal → Request → Reply × State W
  unfolding create_with lifecycle_reply suspend resume delete
  handle svc st p (creates none) = (reply 400 (message (lit "invalid body")), st)
  handle svc st p (creates (some req)) = create_with svc st (actor p) req
  handle svc st p lists = (reply 200 (tenants_body (list_tenants st.store)), st)
  handle svc st p (gets slug) = elim (get_tenant st.store slug) [
    | none ↦ (reply 404 (message (lit "tenant not found")), st)
    | some t ↦ (reply 200 (tenant_body t), st)
  ]
  handle svc st p (gets_job id) = elim (get_job st.store id) [
    | none ↦ (reply 404 (message (lit "job not found")), st)
    | some j ↦ (reply 200 (job_body j), st)
  ]
  handle svc st p (suspends slug) =
      let (a, st1) = suspend svc st slug (actor p) in (lifecycle_reply a, st1)
  handle svc st p (resumes slug) =
      let (a, st1) = resume svc st slug (actor p) in (lifecycle_reply a, st1)
  handle svc st p (deletes slug) =
      let (a, st1) = delete svc st slug (actor p) in (lifecycle_reply a, st1)

  -- `requirePlatformAdmin`, with the validated token, with the token of the header, and in front of
  -- the handler.
  unfoldable pub admit : Service W → State W → Request → Validated → Reply × State W
  unfolding handle
  admit svc st req (refused e) = (reply 401 (message (lit "invalid token")), st)
  admit svc st req (valid p) =
      if not (has_role p (lit "platform-admin"))
      then (reply 403 (message (lit "platform-admin role required")), st)
      else handle svc st (some p) req

  module _ {Key : Type 0} (lib : Jwt Key) (v : JwtValidator Key) (realm audience : Text) where
    unfoldable pub serve_token : Service W → State W → Text → Request → Reply × State W
    unfolding admit
    serve_token svc st [] req = (reply 401 (message (lit "missing bearer token")), st)
    serve_token svc st (a ∷ s) req =
        admit svc st req (validate_for_realm lib v (a ∷ s) realm audience)

    unfoldable pub serve : Service W → State W → Text → Request → Reply × State W
    unfolding serve_token
    serve svc st authorization req = serve_token svc st (bearer authorization) req
