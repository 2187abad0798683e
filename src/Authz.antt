-- ===== src/Authz.antt =====
-- pkg/authz/authz.go and jwt.go: principals, the organization of a request's host, and the validation
-- of access tokens. Hosts are ASCII. A template has at most one verb, `%s`. The JWT package is behind
-- `Jwt`: `parse_with_claims` stands for its call with the options of `verify`, of which the key
-- function, the issuer and the audience vary.
pub mod Jwks
pub mod Binding
pub mod Tests
use mcp_gateway_w.Prelude.{
  ℕ, ◌+◌, Bool, true, false, ◌&&◌, List, [], ◌∷◌, ◌++◌, map, Option, none, some, Text, lit,
  text_beq, leb, nat_beq, if◌then◌else◌,
}

pub record Principal : Type 0 where
  pub org_id : Text
  pub user_id : Text
  pub username : Text
  pub roles : List Text

unfoldable pub has_role_in : List Text → Text → Bool
has_role_in [] role = false
has_role_in (r ∷ rs) role = let rest = has_role_in rs role in if text_beq r role then true else rest

unfoldable pub has_role : Principal → Text → Bool
unfolding has_role_in
has_role p role = has_role_in p.roles role

abbrev pub lower_byte : ℕ → ℕ
lower_byte b = if leb b'A' b && leb b b'Z' then b + 32 else b

abbrev pub lower : Text → Text
lower s = map lower_byte s

-- `host[:i]` for the first colon.
unfoldable pub before_colon : Text → Text
before_colon [] = []
before_colon (b ∷ s) = let rest = before_colon s in if nat_beq b b':' then [] else b ∷ rest

-- `TrimSuffix` where `HasSuffix` holds.
unfoldable pub without_suffix : Text → Text → Option Text
without_suffix suffix [] = if text_beq [] suffix then some [] else none
without_suffix suffix (b ∷ s) =
    let rest = without_suffix suffix s in
    if text_beq (b ∷ s) suffix then some [] else elim rest [ none ↦ none | some t ↦ some (b ∷ t) ]

unfoldable pub org_from_host : Text → Text → Text
unfolding before_colon without_suffix
org_from_host host base_domain =
    elim (without_suffix (b'.' ∷ lower base_domain) (before_colon (lower host))) [
      | none ↦ []
      | some org ↦ org
    ]

-- `fmt.Sprintf(template, org)`.
unfoldable pub sprintf : Text → Text → Text
sprintf [] org = lit "%!(EXTRA string=" ++ (org ++ lit ")")
sprintf (a ∷ []) org = a ∷ sprintf [] org
sprintf (a ∷ b ∷ t) org =
    let rest = sprintf (b ∷ t) org in
    if nat_beq a b'%' && nat_beq b b's' then org ++ t else a ∷ rest

unfoldable pub mcp_resource : Text → Text → Text → Text
unfolding sprintf
mcp_resource org base_domain template = elim template [
  | [] ↦ lit "https://" ++ (org ++ (lit "." ++ (base_domain ++ lit "/mcp")))
  | a ∷ t ↦ sprintf (a ∷ t) org
]

pub record Claims : Type 0 where
  pub issuer : Text
  pub audience : List Text
  pub subject : Text
  pub preferred_username : Text
  pub roles : List Text

-- A key function takes the token's method, RSA or not, and key id.
pub record Jwt (Key : Type 0) : Type 0 where
  pub parse_with_claims : Text → (Bool → Text → Option Key) → Text → Text → Option Claims

pub record JwtValidator (Key : Type 0) : Type 0 where
  pub base_domain : Text
  pub issuer_template : Text
  pub resource_template : Text
  pub key_for : Text → Text → Option Key

pub data Error : Type 0 where
  err_unknown_org : Error
  err_invalid : Error

pub data Validated : Type 0 where
  valid : Principal → Validated
  refused : Error → Validated

module _ {Key : Type 0} where
  unfoldable pub keyfunc : JwtValidator Key → Text → Bool → Text → Option Key
  keyfunc v want_issuer is_rsa kid = if is_rsa then v.key_for want_issuer kid else none

  unfoldable pub verify : Jwt Key → JwtValidator Key → Text → Text → Text → Validated
  unfolding keyfunc sprintf
  verify lib v raw org audience =
      let want_issuer = sprintf v.issuer_template org in
      elim (lib.parse_with_claims raw (keyfunc v want_issuer) want_issuer audience) [
        | none ↦ refused err_invalid
        | some c ↦ elim c.subject [
          | [] ↦ refused err_invalid
          | a ∷ s ↦ valid (record {
            org_id = org;
            user_id = c.subject;
            username = c.preferred_username;
            roles = c.roles;
          })
        ]
      ]

  unfoldable pub validate : Jwt Key → JwtValidator Key → Text → Text → Validated
  unfolding verify org_from_host mcp_resource
  validate lib v raw host = elim (org_from_host host v.base_domain) [
    | [] ↦ refused err_unknown_org
    | a ∷ s ↦
        let org = org_from_host host v.base_domain in
        verify lib v raw org (mcp_resource org v.base_domain v.resource_template)
  ]

  -- `ValidateForOrg` and `ValidateForRealm`, which differ in their names only.
  unfoldable pub validate_for_org : Jwt Key → JwtValidator Key → Text → Text → Text → Validated
  unfolding verify
  validate_for_org lib v raw [] audience = refused err_unknown_org
  validate_for_org lib v raw (a ∷ s) audience = verify lib v raw (a ∷ s) audience

  unfoldable pub validate_for_realm : Jwt Key → JwtValidator Key → Text → Text → Text → Validated
  unfolding verify
  validate_for_realm lib v raw [] audience = refused err_unknown_org
  validate_for_realm lib v raw (a ∷ s) audience = verify lib v raw (a ∷ s) audience
