-- ===== src/Gateway/Front.antt =====
-- services/gateway/internal/auth and internal/server (handleMCP in server.go, audit.go): the discovery
-- document, the bearer check in front of the MCP endpoint, and the audit of denials. The body of a
-- request is `none` where it cannot be decoded; `dropped` is the counter of the records that the limit
-- suppressed. The clock's answers are arguments.
use mcp_gateway_w.Prelude.{
  ℕ, suc, Bool, true, List, [], ◌∷◌, ◌++◌, Option, none, some, Text, lit, bearer, if◌then◌else◌,
}
use mcp_gateway_w.Audit
use mcp_gateway_w.Authz.{
  Principal, Jwt, JwtValidator, Validated, valid, refused, validate, org_from_host, mcp_resource,
  sprintf, without_suffix,
}
use mcp_gateway_w.Mcp
use mcp_gateway_w.Mcp.{World, Handler, Response, Denial, dispatch}
use mcp_gateway_w.Quota.{WindowLimiter, allow}

-- The part of the configuration that the endpoint reads.
pub record Config : Type 0 where
  pub base_domain : Text
  pub issuer_template : Text
  pub resource_template : Text

pub record MetadataDoc : Type 0 where
  pub resource : Text
  pub authorization_servers : List Text
  pub scopes_supported : List Text
  pub bearer_methods : List Text

-- `none` is the answer to an unknown host, 400.
unfoldable pub protected_resource_metadata : Config → Text → Option MetadataDoc
unfolding org_from_host mcp_resource sprintf
protected_resource_metadata cfg host = elim (org_from_host host cfg.base_domain) [
  | [] ↦ none
  | a ∷ s ↦
      let org = org_from_host host cfg.base_domain in
      some (record {
        resource = mcp_resource org cfg.base_domain cfg.resource_template;
        authorization_servers = sprintf cfg.issuer_template org ∷ [];
        scopes_supported = lit "mcp:tools" ∷ lit "mcp:resources" ∷ lit "mcp:prompts" ∷ [];
        bearer_methods = lit "header" ∷ [];
      })
]

abbrev or_whole : Text → Option Text → Text
or_whole s none = s
or_whole s (some t) = t

unfoldable pub challenge : Config → Text → Text
unfolding org_from_host mcp_resource without_suffix
challenge cfg host =
    let org = org_from_host host cfg.base_domain in
    let resource = mcp_resource org cfg.base_domain cfg.resource_template in
    lit "Bearer resource_metadata=\""
    ++ (or_whole resource (without_suffix (lit "/mcp") resource)
        ++ lit "/.well-known/oauth-protected-resource\"")

pub record State : Type 0 where
  pub handler : Handler
  pub audit_deny : Option WindowLimiter
  pub events : List Audit.Event
  pub dropped : ℕ

unfoldable pub audit_deny_allowed : State → ℕ → Bool × State
unfolding allow
audit_deny_allowed st t = elim st.audit_deny [
  | none ↦ (true, st)
  | some l ↦
      let (l1, ok) = allow l t (lit "deny") in
      let st1 : State = record st { audit_deny = some l1 } in
      (ok, if ok then st1 else record st1 { dropped = suc st.dropped })
]

-- Records an event if the limit admits it.
unfoldable pub record_limited : State → ℕ → Audit.Event → State
unfolding audit_deny_allowed
record_limited st t e =
    let (ok, st1) = audit_deny_allowed st t in
    if ok then record st1 { events = st1.events ++ e ∷ [] } else st1

-- `recordAuthDenied`, with the host and the path of the request.
unfoldable pub record_auth_denied : Config → State → ℕ → Text → Text → Text → State
unfolding record_limited org_from_host
record_auth_denied cfg st t host path reason = record_limited st t (record {
  time = 0;
  org_id = org_from_host host cfg.base_domain;
  actor = lit "unknown";
  action = lit "auth.denied";
  target = path;
  metadata = (lit "reason", reason) ∷ (lit "host", host) ∷ [];
})

unfoldable pub record_authz_denied : State → ℕ → Denial → State
unfolding record_limited
record_authz_denied st t d = record_limited st t (record {
  time = 0;
  org_id = d.org;
  actor = d.user;
  action = lit "authz.denied";
  target = d.target;
  metadata = (lit "reason", d.reason) ∷ [];
})

unfoldable pub record_denials : List Denial → State → ℕ → State
unfolding record_authz_denied
record_denials [] st t = st
record_denials (d ∷ ds) st t = record_denials ds (record_authz_denied st t d) t

pub data Body : Type 0 where
  message : Text → Body
  parse_error : Body
  response : Response → Body
  no_content : Body

pub record Reply : Type 0 where
  pub status : ℕ
  pub www_authenticate : Option Text
  pub body : Body

abbrev to_mcp : Principal → Mcp.Principal
to_mcp p = record { org_id = p.org_id; user_id = p.user_id; username = p.username; roles = p.roles }

-- No response is expected to a notification.
unfoldable pub mcp_reply : Option Response → Reply
mcp_reply none = record { status = 202; www_authenticate = none; body = no_content }
mcp_reply (some r) = record { status = 200; www_authenticate = none; body = response r }

-- `handleMCP`; the denials of this call are recorded.
unfoldable pub handle_mcp :
    World → State → ℕ → ℕ → ℕ → Principal → Option Mcp.Request → Reply × State
unfolding mcp_reply record_denials
handle_mcp w st t t' td p none =
    (record { status = 400; www_authenticate = none; body = parse_error }, st)
handle_mcp w st t t' td p (some req) =
    let (h1, r) = dispatch w (record st.handler { denials = [] }) t t' (some (to_mcp p)) req in
    (mcp_reply r, record_denials h1.denials (record st { handler = h1 }) td)

module _ {Key : Type 0} (lib : Jwt Key) (v : Option (JwtValidator Key)) (cfg : Config) where
  -- The `deny` of `RequireAuth`.
  unfoldable pub deny : State → ℕ → Text → Text → Text → Text → Reply × State
  unfolding challenge record_auth_denied
  deny st t host path reason msg = (
    record { status = 401; www_authenticate = some (challenge cfg host); body = message msg },
    record_auth_denied cfg st t host path reason,
  )

  unfoldable pub pass :
      World → State → ℕ → ℕ → ℕ → Text → Text → Option Mcp.Request → Validated → Reply × State
  unfolding deny handle_mcp
  pass w st t t' td host path req (refused e) =
      deny st td host path (lit "invalid_token") (lit "invalid token")
  pass w st t t' td host path req (valid p) = handle_mcp w st t t' td p req

  unfoldable pub require_auth :
      World
      → State
      → ℕ
      → ℕ
      → ℕ
      → Text
      → Text
      → Option Mcp.Request
      → Text
      → Option (JwtValidator Key)
      → Reply × State
  unfolding pass deny validate
  require_auth w st t t' td host path req [] o =
      deny st td host path (lit "missing_token") (lit "missing or unsupported bearer token")
  require_auth w st t t' td host path req (a ∷ s) none =
      deny st td host path (lit "missing_token") (lit "missing or unsupported bearer token")
  require_auth w st t t' td host path req (a ∷ s) (some v) =
      pass w st t t' td host path req (validate lib v (a ∷ s) host)

  -- A request to `/mcp`.
  unfoldable pub serve_mcp :
      World → State → ℕ → ℕ → ℕ → Text → Text → Text → Option Mcp.Request → Reply × State
  unfolding require_auth bearer
  serve_mcp w st t t' td host path authorization req =
      require_auth w st t t' td host path req (bearer authorization) v
