-- ===== src/Gateway/Discovery.antt =====
-- metadata.go and middleware.go: the discovery document agrees with what the tokens are checked against,
-- and a request without a valid token goes no further.
use mcp_gateway_w.Prelude.{
  ℕ, Bool-cases, ◌≡◌, refl, sym, ap, inl, inr, Option-cases, [], ◌∷◌, Option, none, some, Text, lit,
  bearer, arith,
}
use mathlib.Core.List.{Mem}
use mcp_gateway_w.Authz.{
  Principal, Error, Claims, Jwt, JwtValidator, valid, refused, validate, org_from_host,
  mcp_resource, sprintf,
}
use mcp_gateway_w.Authz.Binding.{IsJwt, verify-valid, validate-verify}
use mcp_gateway_w.Mcp
use mcp_gateway_w.Mcp.{World}
use mcp_gateway_w.Quota.{allow}
use mcp_gateway_w.Gateway.Front.{
  Config, MetadataDoc, protected_resource_metadata, challenge, State, deny, pass, require_auth,
  serve_mcp, Reply, audit_deny_allowed, record_limited, record_auth_denied,
}

abbrev pub config_of : {Key : Type 0} → JwtValidator Key → Config
config_of v = record {
  base_domain = v.base_domain;
  issuer_template = v.issuer_template;
  resource_template = v.resource_template;
}

-- A token is not accepted on a host without an organization.
metadata-found :
    {Key : Type 0} (lib : Jwt Key) (v : JwtValidator Key) (raw host : Text) (p : Principal)
    (o : Text)
    → org_from_host host v.base_domain ≡ o
    → validate lib v raw host ≡ valid p
    → protected_resource_metadata (config_of v) host
      ≡ some (record {
        resource =
            mcp_resource (org_from_host host v.base_domain) v.base_domain v.resource_template;
        authorization_servers = sprintf v.issuer_template (org_from_host host v.base_domain) ∷ [];
        scopes_supported = lit "mcp:tools" ∷ lit "mcp:resources" ∷ lit "mcp:prompts" ∷ [];
        bearer_methods = lit "header" ∷ [];
      })
unfolding protected_resource_metadata validate
metadata-found lib v raw host p [] q e = absurd (ground (arith, q, e))
metadata-found lib v raw host p (a ∷ s) q e = ground (arith, q)

-- Where a token is accepted on a host, the discovery document of this host exists, the token is meant
-- for the resource that it names, and was issued by the one authorization server that it names. The
-- JWT package keeps to `IsJwt`.
pub validate-protected_resource_metadata :
    {Key : Type 0} (lib : Jwt Key) (v : JwtValidator Key) (decode : Text → Claims)
    → IsJwt lib decode
    → (raw host : Text) (p : Principal) → validate lib v raw host ≡ valid p
    → (doc : MetadataDoc) × (protected_resource_metadata (config_of v) host ≡ some doc)
      × Mem doc.resource (decode raw).audience
      × (doc.authorization_servers ≡ (decode raw).issuer ∷ [])
validate-protected_resource_metadata lib v decode ok raw host p e =
    let org = org_from_host host v.base_domain in
    let (o, u, iss, m) =
      verify-valid lib v decode ok raw org (mcp_resource org v.base_domain v.resource_template) p
        (validate-verify lib v raw host p e) in
    (_, metadata-found lib v raw host p org refl e, m, ap (λ i. i ∷ []) (sym iss))

-- A token that the validation refuses, no token, or no validator.
abbrev pub IsRefused : {Key : Type 0} → Jwt Key → Option (JwtValidator Key) → Text → Text → Type 0
IsRefused lib none token host = Unit
IsRefused lib (some v) [] host = Unit
IsRefused lib (some v) (a ∷ s) host = (e : Error) × (validate lib v (a ∷ s) host ≡ refused e)

-- A request that is refused is answered by 401 with the challenge of the host, and leaves the handler,
-- with its catalog, its quotas and its calls, as it was.
abbrev pub IsTurnedAway : Config → Text → State → Reply × State → Type 0
IsTurnedAway cfg host st r =
    (r.0.status ≡ 401)
    × (r.0.www_authenticate ≡ some (challenge cfg host))
    × (r.1.handler ≡ st.handler)

record_auth_denied-handler :
    (cfg : Config) (st : State) (t : ℕ) (host path reason : Text)
    → (record_auth_denied cfg st t host path reason).handler ≡ st.handler
unfolding record_auth_denied record_limited audit_deny_allowed
record_auth_denied-handler cfg st t host path reason = elim (Option-cases st.audit_deny) [
  | inl e ↦ ground (arith, e)
  | inr (l, e) ↦ elim (Bool-cases (allow l t (lit "deny")).1) [
    | inl b ↦ ground (arith, e, b)
    | inr b ↦ ground (arith, e, b)
  ]
]

module _ {Key : Type 0} (lib : Jwt Key) (v : Option (JwtValidator Key)) (cfg : Config) where
  deny-IsTurnedAway :
      (st : State) (t : ℕ) (host path reason msg : Text)
      → IsTurnedAway cfg host st (deny lib v cfg st t host path reason msg)
  unfolding deny
  deny-IsTurnedAway st t host path reason msg =
      (refl, refl, record_auth_denied-handler cfg st t host path reason)

  require_auth-IsTurnedAway :
      (w : World) (st : State) (t t' td : ℕ) (host path : Text) (req : Option Mcp.Request)
      (token : Text) (o : Option (JwtValidator Key))
      → IsRefused lib o token host
      → IsTurnedAway cfg host st (require_auth lib v cfg w st t t' td host path req token o)
  unfolding require_auth pass
  require_auth-IsTurnedAway w st t t' td host path req [] none i =
      deny-IsTurnedAway st td host path (lit "missing_token")
        (lit "missing or unsupported bearer token")
  require_auth-IsTurnedAway w st t t' td host path req [] (some u) i =
      deny-IsTurnedAway st td host path (lit "missing_token")
        (lit "missing or unsupported bearer token")
  require_auth-IsTurnedAway w st t t' td host path req (a ∷ s) none i =
      deny-IsTurnedAway st td host path (lit "missing_token")
        (lit "missing or unsupported bearer token")
  require_auth-IsTurnedAway w st t t' td host path req (a ∷ s) (some u) (e, q) =
      rw q (deny-IsTurnedAway st td host path (lit "invalid_token") (lit "invalid token"))

  -- A request to the MCP endpoint whose bearer is missing or refused, or for which there is no
  -- validator, is answered by 401 with the challenge of its host, and leaves the handler as it was:
  -- the catalog, the quotas, and the calls of downstream servers.
  pub serve_mcp-IsTurnedAway :
      (w : World) (st : State) (t t' td : ℕ) (host path authorization : Text)
      (req : Option Mcp.Request)
      → IsRefused lib v (bearer authorization) host
      → IsTurnedAway cfg host st (serve_mcp lib v cfg w st t t' td host path authorization req)
  unfolding serve_mcp
  serve_mcp-IsTurnedAway w st t t' td host path authorization req i =
      require_auth-IsTurnedAway w st t t' td host path req (bearer authorization) v i
