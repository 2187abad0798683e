-- ===== src/Authz/Tests.antt =====
-- authz.go and jwt.go: runs on small inputs, and the theorems at concrete tokens.
use mathlib.Core.List.{Mem, mem-cons_self}
use mcp_gateway_w.Prelude.{
  ℕ, ◌≡◌, refl, sym, subst, Bool, ◌&&◌, [], ◌∷◌, Option, none, some, Text, lit, text_beq,
  text_eq_iff, arith, if◌then◌else◌,
}
use mcp_gateway_w.Authz.{
  Principal, has_role_in, has_role, before_colon, without_suffix, org_from_host, sprintf,
  mcp_resource, Claims, Jwt, JwtValidator, valid, keyfunc, verify, validate, validate_for_org,
  validate_for_realm,
}
use mcp_gateway_w.Authz.Binding.{IsJwt, validate-one_org}

runs : Unit {0}
unfolding has_role_in has_role before_colon without_suffix org_from_host sprintf mcp_resource
    keyfunc verify validate validate_for_org validate_for_realm text_beq
runs = tt

abbrev pub claims : Claims
claims = record {
  issuer = lit "https://idp/realms/acme";
  audience = lit "https://acme.mcp.io/mcp" ∷ [];
  subject = lit "u1";
  preferred_username = lit "ann";
  roles = lit "admin" ∷ [];
}

-- A package for which every token is well signed and holds the claims above.
abbrev parse : Text → (Bool → Text → Option ℕ) → Text → Text → Option Claims
parse raw kf iss aud =
    if text_beq claims.issuer iss && text_beq (lit "https://acme.mcp.io/mcp") aud
    then some claims
    else none

abbrev pub lib : Jwt ℕ
lib = record { parse_with_claims = parse }

parse-lem :
    (raw : Text) (kf : Bool → Text → Option ℕ) (iss aud : Text) (c : Claims)
    → lib.parse_with_claims raw kf iss aud ≡ some c
    → (c ≡ claims) × (c.issuer ≡ iss) × (lit "https://acme.mcp.io/mcp" ≡ aud)
parse-lem raw kf iss aud c h =
    ground (arith, text_eq_iff claims.issuer iss, text_eq_iff (lit "https://acme.mcp.io/mcp") aud)

pub lib-IsJwt : IsJwt lib (λ raw. claims)
lib-IsJwt = record {
  own_claims = λ raw kf iss aud c h.
      let (a, b, e) = parse-lem raw kf iss aud c h in
      let m = subst (λ x. Mem (lit "https://acme.mcp.io/mcp") x.audience) (sym a) mem-cons_self in
      (a, b, subst (λ x. Mem x c.audience) e m);
}

abbrev pub validator : JwtValidator ℕ
validator = record {
  base_domain = lit "mcp.io";
  issuer_template = lit "https://idp/realms/%s";
  resource_template = [];
  key_for = λ iss kid. some 7;
}

abbrev pub ann : Principal
ann = record {
  org_id = lit "acme";
  user_id = lit "u1";
  username = lit "ann";
  roles = lit "admin" ∷ [];
}

pub accepted : validate lib validator (lit "t") (lit "ACME.mcp.io:443") ≡ valid ann
unfolding runs
accepted = refl

accepted_2 : validate lib validator (lit "t") (lit "acme.mcp.io") ≡ valid ann
unfolding runs
accepted_2 = refl

validate-one_org_example :
    (ann.org_id ≡ ann.org_id)
    × (ann.user_id ≡ ann.user_id)
    × (ann.org_id ≡ org_from_host (lit "ACME.mcp.io:443") validator.base_domain)
    × Mem
        (mcp_resource ann.org_id validator.base_domain validator.resource_template)
        claims.audience
validate-one_org_example =
    validate-one_org lib validator (λ raw. claims) lib-IsJwt (lit "t") (lit "ACME.mcp.io:443")
      (lit "acme.mcp.io") ann ann accepted accepted_2
