-- ===== src/Idp/Rest/Upsert.antt =====
-- brokering.go: what `UpsertIdentityProvider` does to the identity provider's state.
use mcp_gateway_w.Prelude.{
  ℕ, suc, ◌<◌, ◌≡◌, refl, ap, ◌∙◌, inl, inr, true, false, ◌∷◌, ◌++◌, Option, none, some, Text, lit,
  nat_beq, text_beq, ltb, is_empty, Option-cases, arith, if◌then◌else◌,
}
use mathlib.Core.List.{append_assoc}
use mcp_gateway_w.Idp.Escape.{path_escape}
use mcp_gateway_w.Brokering.{IdentityProvider}
use mcp_gateway_w.Idp.Rest.{
  Body, Request, admin_request, Response, Exchanged, answer, Network, State, send, access_token,
  with_token, do_once, retried, do_request,
}
use mcp_gateway_w.Idp.Rest.Api.{instances, provider_rep, expect, upserted, upsert_identity_provider}

-- The answer is a response of the status.
abbrev pub HasStatus : ℕ → Exchanged → Type 0
HasStatus n a = (r : Response) × (a ≡ answer r) × (r.status ≡ n)

-- What the identity provider documents of the instances below a collection: `holds` is what stands at
-- a URL. A POST creates what is not there and is otherwise a conflict, a PUT replaces what is there.
pub record Instances {W : Type 0} (net : Network W) (holds : W → Text → Option Body)
    (authorization : Text) : Type 0 where
  pub posted :
      (w : W) (url : Text) (p : IdentityProvider)
      → holds w (url ++ (b'/' ∷ path_escape p.alias)) ≡ none
      → let r =
          net.exchange w (admin_request (lit "POST") url authorization (some (provider_rep p))) in
        HasStatus 201 r.0
        × ((u : Text)
            → holds r.1 u ≡ (
                if text_beq (url ++ (b'/' ∷ path_escape p.alias)) u
                then some (provider_rep p)
                else holds w u))
  pub conflict :
      (w : W) (url : Text) (p : IdentityProvider) (b : Body)
      → holds w (url ++ (b'/' ∷ path_escape p.alias)) ≡ some b
      → let r =
          net.exchange w (admin_request (lit "POST") url authorization (some (provider_rep p))) in
        HasStatus 409 r.0 × ((u : Text) → holds r.1 u ≡ holds w u)
  pub replaced :
      (w : W) (url : Text) (p : IdentityProvider) (b : Body)
      → holds w url ≡ some b
      → let r =
          net.exchange w (admin_request (lit "PUT") url authorization (some (provider_rep p))) in
        HasStatus 204 r.0
        × ((u : Text) → holds r.1 u ≡ (if text_beq url u then some (provider_rep p) else holds w u))

-- There is a token, and it is not to be renewed at a reading of the clock.
abbrev pub IsLive : {W : Type 0} → Network W → State W → ℕ → Type 0
IsLive net st n = (is_empty st.client.token ≡ false) × (net.clock n < st.client.exp)

abbrev pub instance_url : Text → Text → Text → Text
instance_url base realm alias = base ++ (instances realm ++ (b'/' ∷ path_escape alias))

module _ {W : Type 0} (net : Network W) where
  -- The state after one request with the cached token.
  abbrev sent_with : State W → Request → State W
  sent_with st q = (send net (record st { readings = suc st.readings }) q).1

  abbrev request : State W → Text → Text → Option Body → Request
  request st method path body =
      admin_request method (st.client.base ++ path) (lit "Bearer " ++ st.client.token) body

  lt→ltb : (a b : ℕ) → a < b → ltb a b ≡ true
  lt→ltb a b h = ground arith

  do_request-answered :
      (st : State W) (method path : Text) (body : Option Body) (n : ℕ)
      → IsLive net st st.readings
      → (nat_beq n 403 ≡ false)
      → HasStatus n (net.exchange st.outer (request st method path body)).0
      → do_request net st method path body ≡ (
        (net.exchange st.outer (request st method path body)).0,
        sent_with st (request st method path body),
      )
  unfolding do_request do_once retried access_token with_token send
  do_request-answered st method path body n l d (r, e, s) = rw (l.0, lt→ltb _ _ l.1, e, s, d) refl

  module _ (holds : W → Text → Option Body) (st : State W) (realm : Text) (p : IdentityProvider)
      (laws : Instances net holds (lit "Bearer " ++ st.client.token))
      (live : IsLive net st st.readings) (live' : IsLive net st (suc st.readings)) where
    abbrev pub IsPut : Option Text × State W → Type 0
    IsPut r =
        (r.0 ≡ none)
        × ((u : Text)
            → holds r.1.outer u ≡ (
                if text_beq (instance_url st.client.base realm p.alias) u
                then some (provider_rep p)
                else holds st.outer u))

    assoc :
        (st.client.base ++ instances realm) ++ (b'/' ∷ path_escape p.alias)
        ≡ instance_url st.client.base realm p.alias
    assoc = append_assoc st.client.base (instances realm) (b'/' ∷ path_escape p.alias)

    upsert_new-IsPut :
        holds st.outer (instance_url st.client.base realm p.alias) ≡ none
        → IsPut (upsert_identity_provider net st realm p)
    unfolding upsert_identity_provider upserted send
    upsert_new-IsPut h =
        let q = request st (lit "POST") (instances realm) (some (provider_rep p)) in
        let ((r, e, s), f) =
          laws.posted st.outer (st.client.base ++ instances realm) p
            (ap (holds st.outer) assoc ∙ h) in
        let d =
          do_request-answered st (lit "POST") (instances realm) (some (provider_rep p)) 201 live
            refl (r, e, s) in
        rw (d, e, s)
          (
            refl,
            λ u.
                f u
                ∙ ap
                    (λ (t : Text). if text_beq t u then some (provider_rep p) else holds st.outer u)
                    assoc,
          )

    upsert_old-IsPut :
        (b : Body)
        → holds st.outer (instance_url st.client.base realm p.alias) ≡ some b
        → IsPut (upsert_identity_provider net st realm p)
    unfolding upsert_identity_provider upserted expect send
    upsert_old-IsPut b h =
        let q = request st (lit "POST") (instances realm) (some (provider_rep p)) in
        let st1 = sent_with st q in
        let ((r, e, s), f) =
          laws.conflict st.outer (st.client.base ++ instances realm) p b
            (ap (holds st.outer) assoc ∙ h) in
        let d =
          do_request-answered st (lit "POST") (instances realm) (some (provider_rep p)) 409 live
            refl (r, e, s) in
        let ((r', e', s'), f') =
          laws.replaced st1.outer (instance_url st.client.base realm p.alias) p b (f _ ∙ h) in
        let d' =
          do_request-answered st1 (lit "PUT") (instances realm ++ (b'/' ∷ path_escape p.alias))
            (some (provider_rep p)) 204 live' refl (r', e', s') in
        rw (d, e, s, d', e', s')
          (
            refl,
            λ u.
                f' u
                ∙ ap
                    (λ (o : Option Body).
                      if text_beq (instance_url st.client.base realm p.alias) u
                      then some (provider_rep p)
                      else o)
                    (f u),
          )

    -- With a token that lasts, an upsert succeeds whether or not the provider was there; afterwards
    -- the provider stands under its alias as it was given, and nothing else has changed.
    pub upsert_identity_provider-IsPut : IsPut (upsert_identity_provider net st realm p)
    upsert_identity_provider-IsPut =
        elim (Option-cases (holds st.outer (instance_url st.client.base realm p.alias))) [
          | inl h ↦ upsert_new-IsPut h
          | inr (b, h) ↦ upsert_old-IsPut b h
        ]
