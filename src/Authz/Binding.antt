-- ===== src/Authz/Binding.antt =====
-- authz.go and jwt.go: a token is bound to one organization.
use mathlib.Core.List.{Mem}
use mcp_gateway_w.Prelude.{
  ◌≡◌, ◌≢◌, refl, sym, ap, subst, ◌∙◌, Bool, [], ◌∷◌, ◌++◌, Option, Option-cases, some, inl, inr,
  Text, lit, text_eq_iff, eq_refl, Lacks, length-append, All-append, append_right-injective,
  append_left-injective, arith,
}
use mcp_gateway_w.Authz.{
  Principal, lower, before_colon, without_suffix, org_from_host, sprintf, mcp_resource, Claims, Jwt,
  JwtValidator, valid, keyfunc, verify, validate,
}

-- The templated text determines what was filled in.
sprintf-injective : (t s u : Text) → sprintf t s ≡ sprintf t u → s ≡ u
unfolding sprintf
sprintf-injective [] s u e =
    append_right-injective s u (lit ")") (append_left-injective (lit "%!(EXTRA string=") _ _ e)
sprintf-injective (a ∷ []) s u e = sprintf-injective [] s u (cc)
sprintf-injective (a ∷ b ∷ t) s u e =
    ground (arith, sprintf-injective (b ∷ t) s u, append_right-injective s u t)

-- What the JWT package documents of `WithIssuer` and `WithAudience`: the claims it returns are those
-- of the token, whatever the options, with the issuer and the audience that were asked for.
pub record IsJwt {Key : Type 0} (lib : Jwt Key) (decode : Text → Claims) : Type 0 where
  pub own_claims :
      (raw : Text) (kf : Bool → Text → Option Key) (iss aud : Text) (c : Claims)
      → lib.parse_with_claims raw kf iss aud ≡ some c
      → (c ≡ decode raw) × (c.issuer ≡ iss) × Mem aud c.audience

module _ {Key : Type 0} where
  pub verify-valid :
      (lib : Jwt Key) (v : JwtValidator Key) (decode : Text → Claims)
      → IsJwt lib decode
      → (raw org aud : Text) (p : Principal) → verify lib v raw org aud ≡ valid p
      → (p.org_id ≡ org)
        × (p.user_id ≡ (decode raw).subject)
        × ((decode raw).issuer ≡ sprintf v.issuer_template org)
        × Mem aud (decode raw).audience
  unfolding verify
  verify-valid lib v decode ok raw org aud p h =
      let iss = sprintf v.issuer_template org in
      elim (Option-cases (lib.parse_with_claims raw (keyfunc v iss) iss aud)) [
        | inl e ↦ ground arith
        | inr (c, e) ↦
            let (q, i, m) = ok.own_claims raw (keyfunc v iss) iss aud c e in
            (ground arith, ground arith, cc, subst (λ c. Mem aud c.audience) q m)
      ]

  pub validate-verify :
      (lib : Jwt Key) (v : JwtValidator Key) (raw host : Text) (p : Principal)
      → validate lib v raw host ≡ valid p
      → verify lib v raw
          (org_from_host host v.base_domain)
          (mcp_resource (org_from_host host v.base_domain) v.base_domain v.resource_template)
        ≡ valid p
  unfolding validate
  validate-verify lib v raw host p h = ground arith

  -- If the JWT package keeps to `IsJwt`, a token that is accepted on two hosts has one organization
  -- and one user on both, the organization is that of the host, and the token is meant for that
  -- organization's resource.
  pub validate-one_org :
      (lib : Jwt Key) (v : JwtValidator Key) (decode : Text → Claims)
      → IsJwt lib decode
      → (raw host host' : Text) (p p' : Principal) → validate lib v raw host ≡ valid p
      → validate lib v raw host' ≡ valid p'
      → (p.org_id ≡ p'.org_id)
        × (p.user_id ≡ p'.user_id)
        × (p.org_id ≡ org_from_host host v.base_domain)
        × Mem (mcp_resource p.org_id v.base_domain v.resource_template) (decode raw).audience
  validate-one_org lib v decode ok raw host host' p p' h h' =
      let (o, u, i, m) =
        verify-valid lib v decode ok raw _ _ p (validate-verify lib v raw host p h) in
      let (o', u', i', m') =
        verify-valid lib v decode ok raw _ _ p' (validate-verify lib v raw host' p' h') in
      let same = sprintf-injective v.issuer_template _ _ (sym i ∙ i') in
      (
        o ∙ same ∙ sym o',
        u ∙ sym u',
        o,
        subst (λ x. Mem (mcp_resource x v.base_domain v.resource_template) (decode raw).audience)
            (sym o) m,
      )

before_colon-lower :
    (s port : Text) → Lacks b':' s → lower s ≡ s → before_colon (lower (s ++ b':' ∷ port)) ≡ s
unfolding before_colon
before_colon-lower [] port h l = refl
before_colon-lower (a ∷ s) port h l = ground (arith, before_colon-lower s port)

without_suffix-append :
    (s suffix : Text) → suffix ≢ [] → without_suffix suffix (s ++ suffix) ≡ some s
unfolding without_suffix
without_suffix-append [] [] h = absurd (h refl)
without_suffix-append [] (a ∷ t) h = ground (arith, eq_refl (a ∷ t))
without_suffix-append (b ∷ s) suffix h = ground (
  arith,
  without_suffix-append s suffix h,
  text_eq_iff (b ∷ (s ++ suffix)) suffix,
  length-append s suffix,
)

lower-append : (s t : Text) → lower s ≡ s → lower t ≡ t → lower (s ++ t) ≡ s ++ t
lower-append [] t hs ht = ht
lower-append (a ∷ s) t hs ht = ground (arith, lower-append s t)

append_assoc : (s t u : Text) → (s ++ t) ++ u ≡ s ++ (t ++ u)
append_assoc [] t u = refl
append_assoc (a ∷ s) t u = cc (append_assoc s t u)

org_from_host-eq :
    (host base s org : Text)
    → before_colon (lower host) ≡ s
    → lower base ≡ base
    → without_suffix (b'.' ∷ base) s ≡ some org
    → org_from_host host base ≡ org
unfolding org_from_host
org_from_host-eq host base s org e l w =
    let x : without_suffix (b'.' ∷ lower base) (before_colon (lower host)) ≡ some org = cc in
    elim (Option-cases (without_suffix (b'.' ∷ lower base) (before_colon (lower host)))) [
      | inl n ↦ ground arith
      | inr (o, y) ↦ rw (org_from_host, y) (ground arith)
    ]

-- The host of an organization, with or without a port, gives the organization back; its name and the
-- base domain are in lower case and without a colon.
org_from_host-roundtrip :
    (org base port : Text)
    → Lacks b':' org
    → Lacks b':' base
    → lower org ≡ org
    → lower base ≡ base
    → org_from_host (org ++ (b'.' ∷ (base ++ (b':' ∷ port)))) base ≡ org
unfolding org_from_host
org_from_host-roundtrip org base port ho hb lo lb =
    let whole = append_assoc org (b'.' ∷ base) (b':' ∷ port) in
    let lw = lower-append org (b'.' ∷ base) lo (cc) in
    let lacks = All-append (λ c. c ≢ b':') org (b'.' ∷ base) ho (ground arith, hb) in
    let e = before_colon-lower (org ++ b'.' ∷ base) port lacks lw in
    let w = without_suffix-append org (b'.' ∷ base) (ground arith) in
    org_from_host-eq (org ++ (b'.' ∷ (base ++ (b':' ∷ port)))) base _ org
      (ap (λ h. before_colon (lower h)) (sym whole) ∙ e) lb w
