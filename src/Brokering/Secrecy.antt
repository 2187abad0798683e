-- ===== src/Brokering/Secrecy.antt =====
-- handlers.go: the secret of an identity provider goes to the secrets store and to the broker only.
use mcp_gateway_w.Prelude.{
  ◌≡◌, ◌≢◌, refl, sym, subst, arith, inl, inr, Bool, true, false, not, Bool-cases, [], ◌∷◌, Option,
  none, some, Text, lit, text_beq, ◌&&◌,
}
use mcp_gateway_w.Prelude.Dict.{Dict, insert}
use mcp_gateway_w.Secrets.{SecretStore}
use mcp_gateway_w.Brokering.{IdentityProvider, Broker}
use mcp_gateway_w.Brokering.Handlers.{
  Handlers, State, PutReq, Reply, secret_ref, provider_config, record_event, new_link, applied,
  secret_stored, store_secret, put_with, put,
}

-- Whether a write succeeds does not depend on the secret in it: two configurations with a client
-- secret each that are otherwise the same have one answer.
pub record IsBlind {W S : Type 0} (h : Handlers W S) : Type 0 where
  pub broker :
      (b : Broker W)
      → h.broker ≡ some b
      → (w : W) (org : Text) (p : IdentityProvider) (c : Dict Text) (s t : Text) → s ≢ []
      → t ≢ []
      → (b.upsert_identity_provider w org (record p { config = insert (lit "clientSecret") s c })).0
        ≡ (b.upsert_identity_provider w org
            (record p { config = insert (lit "clientSecret") t c })).0
  pub secrets :
      (api : SecretStore S)
      → h.secrets ≡ some api
      → (x : S) (ref : Text) (v v' : Dict Text) → (api.put x ref v).0 ≡ (api.put x ref v').0

-- The same answer, the same links and the same audit events.
abbrev pub SameSight : {W S : Type 0} → Reply × State W S → Reply × State W S → Type 0
SameSight r r' = (r.0 ≡ r'.0) × (r.1.links ≡ r'.1.links) × (r.1.events ≡ r'.1.events)

module _ {W S : Type 0} (h : Handlers W S) where
  applied-SameSight :
      (st : State W S) (w w' : W) (x x' : S) (org actor alias : Text) (req : PutReq) (t : Text)
      (e : Option Text)
      → SameSight (applied h (record st { outer = w; secrets = x }) org actor alias req e) (
          applied h
            (record st { outer = w'; secrets = x' })
            org
            actor
            alias
            (record req { secret = t })
            e)
  unfolding applied new_link record_event
  applied-SameSight st w w' x x' org actor alias req t (some msg) = (refl, refl, refl)
  applied-SameSight st w w' x x' org actor alias req t none = elim (Bool-cases h.audited) [
    | inl a ↦ rw a (refl, refl, refl)
    | inr a ↦ rw a (refl, refl, refl)
  ]

  provider_config-given :
      (req : PutReq)
      → req.secret ≢ []
      → provider_config req ≡ insert (lit "clientSecret") req.secret req.config
  unfolding provider_config
  provider_config-given req n = ground (arith, n)

  secret_stored-SameSight :
      (b : Broker W) (st : State W S) (org actor alias : Text) (req : PutReq) (t : Text) (ok : Bool)
      (x x' : S)
      → h.broker ≡ some b
      → IsBlind h
      → req.secret ≢ []
      → t ≢ []
      → SameSight
          (secret_stored h b st org actor alias req (ok, x))
          (secret_stored h b st org actor alias (record req { secret = t }) (ok, x'))
  unfolding secret_stored
  secret_stored-SameSight b st org actor alias req t false x x' f blind n m = (refl, refl, refl)
  secret_stored-SameSight b st org actor alias req t true x x' f blind n m =
      let p : IdentityProvider = record {
        alias = alias;
        provider_id = req.link_type;
        enabled = true;
        config = provider_config req;
      } in
      let c = provider_config (record req { secret = t }) in
      let p' : IdentityProvider = record p { config = c } in
      let w = (b.upsert_identity_provider st.outer org p).1 in
      let w' = (b.upsert_identity_provider st.outer org p').1 in
      subst
        (λ e.
          SameSight
            (applied h (record st { outer = w; secrets = x }) org actor alias req
              (b.upsert_identity_provider st.outer org p).0)
            (applied h (record st { outer = w'; secrets = x' }) org actor alias
              (record req { secret = t }) e))
        (subst
          (λ c0.
            (b.upsert_identity_provider st.outer org (record p { config = c0 })).0
            ≡ (b.upsert_identity_provider st.outer org p').0)
          (sym (provider_config-given req n))
          (subst
            (λ c1.
              (b.upsert_identity_provider st.outer org
                (record p { config = insert (lit "clientSecret") req.secret req.config })).0
              ≡ (b.upsert_identity_provider st.outer org (record p { config = c1 })).0)
            (sym (provider_config-given (record req { secret = t }) m))
            (blind.broker b f st.outer org p req.config req.secret t n m)))
        (applied-SameSight st w w' x x' org actor alias req t
          (b.upsert_identity_provider st.outer org p).0)

  store_secret-blind :
      (o : Option (SecretStore S)) (x : S) (ref s t : Text)
      → h.secrets ≡ o
      → IsBlind h
      → s ≢ []
      → t ≢ []
      → (store_secret o x ref s).0 ≡ (store_secret o x ref t).0
  unfolding store_secret
  store_secret-blind none x ref s t e blind n m = refl
  store_secret-blind (some api) x ref [] t e blind n m = absurd (n refl)
  store_secret-blind (some api) x ref (a ∷ s) [] e blind n m = absurd (m refl)
  store_secret-blind (some api) x ref (a ∷ s) (b ∷ t) e blind n m = blind.secrets api e x ref _ _

  put_with-SameSight :
      (o : Option (Broker W)) (st : State W S) (org actor alias : Text) (req : PutReq) (t : Text)
      → h.broker ≡ o
      → IsBlind h
      → req.secret ≢ []
      → t ≢ []
      → SameSight
          (put_with h o st org actor alias (some req))
          (put_with h o st org actor alias (some (record req { secret = t })))
  unfolding put_with
  put_with-SameSight none st org actor alias req t e blind n m = (refl, refl, refl)
  put_with-SameSight (some b) st org actor alias req t e blind n m =
      let ref = secret_ref org alias in
      let r = store_secret h.secrets st.secrets ref req.secret in
      let r' = store_secret h.secrets st.secrets ref t in
      elim (Bool-cases
        (not (text_beq req.link_type (lit "oidc")) && not (text_beq req.link_type (lit "saml")))) [
          | inl c ↦ rw c (refl, refl, refl)
          | inr c ↦ rw c (
              subst
                (λ ok.
                  SameSight (secret_stored h b st org actor alias req r)
                    (secret_stored h b st org actor alias (record req { secret = t }) (ok, r'.1)))
                (store_secret-blind h.secrets st.secrets ref req.secret t refl blind n m)
                (secret_stored-SameSight b st org actor alias req t r.0 r.1 r'.1 e blind n m))
        ]

  -- Two requests that differ in the secret alone, neither empty, have the same answer and leave the
  -- same links and the same audit events: what the control plane keeps and shows does not depend on
  -- the secret. Whether the writes to the broker and to the secrets store succeed does not either.
  pub put-SameSight :
      (st : State W S) (org actor alias : Text) (req : PutReq) (t : Text)
      → IsBlind h
      → req.secret ≢ []
      → t ≢ []
      → SameSight
          (put h st org actor alias (some req))
          (put h st org actor alias (some (record req { secret = t })))
  unfolding put
  put-SameSight st org actor alias req t blind n m =
      put_with-SameSight h.broker st org actor alias req t refl blind n m
