-- ===== src/Brokering/Handlers.antt =====
-- services/control-plane/internal/brokering/handlers.go: the handlers, and the guard in front of them.
use mcp_gateway_w.Prelude.{
  ℕ, ◌+◌, Bool, true, false, not, ◌&&◌, List, [], ◌∷◌, ◌++◌, Option, none, some, Text, lit,
  text_beq, bearer, if◌then◌else◌, is_empty,
}
use mcp_gateway_w.Prelude.Dict.{Dict, insert}
use mcp_gateway_w.Audit.{Event}
use mcp_gateway_w.Authz.{has_role, Jwt, JwtValidator, Validated, valid, refused, validate_for_org}
use mcp_gateway_w.Secrets.{SecretStore}
use mcp_gateway_w.Brokering.{Broker, Link, upsert_link, list_links, get_link, delete_link}

pub record Handlers (W S : Type 0) : Type 0 where
  pub broker : Option (Broker W)
  pub secrets : Option (SecretStore S)
  pub audited : Bool
  pub clock : ℕ → ℕ
  pub new_id : ℕ → Text

pub record State (W S : Type 0) : Type 0 where
  pub outer : W
  pub secrets : S
  pub links : Dict Link
  pub events : List Event
  pub readings : ℕ

pub record PutReq : Type 0 where
  pub link_type : Text
  pub config : Dict Text
  pub secret : Text
  pub role_mappings : Dict Text

pub data Body : Type 0 where
  message : Text → Body
  link_body : Link → Body
  links_body : List Link → Body
  no_content : Body

pub record Reply : Type 0 where
  pub status : ℕ
  pub body : Body

abbrev reply : ℕ → Body → Reply
reply status body = record { status = status; body = body }

unfoldable pub secret_ref : Text → Text → Text
secret_ref org alias = lit "idp/" ++ (org ++ (b'/' ∷ alias))

-- The configuration that is applied, with the secret merged in.
unfoldable pub provider_config : PutReq → Dict Text
provider_config req =
    if is_empty req.secret then req.config else insert (lit "clientSecret") req.secret req.config

-- Nothing is stored without a secret.
unfoldable pub store_secret : {S : Type 0} → Option (SecretStore S) → S → Text → Text → Bool × S
store_secret none secrets ref secret = (true, secrets)
store_secret (some api) secrets ref secret =
    if is_empty secret
    then (true, secrets)
    else api.put secrets ref ((lit "clientSecret", secret) ∷ [])

module _ {W S : Type 0} where
  abbrev now : Handlers W S → State W S → ℕ
  now h st = h.clock st.readings

  abbrev tick : State W S → State W S
  tick st = record st { readings = st.readings + 1 }

  unfoldable pub record_event : Handlers W S → State W S → Text → Text → Text → Text → State W S
  record_event h st org actor action target =
      if h.audited
      then record (tick st) {
        events =
            st.events
            ++ record {
              time = now h st;
              org_id = org;
              actor = actor;
              action = action;
              target = target;
              metadata = [];
            }
              ∷ [];
      }
      else st

  -- The link that is stored; one that was there keeps its identity and its creation.
  unfoldable pub new_link : Handlers W S → State W S → Text → Text → PutReq → Option Link → Link
  unfolding secret_ref
  new_link h st org alias req existing =
      let l : Link = record {
        id = h.new_id st.readings;
        org_id = org;
        alias = alias;
        link_type = req.link_type;
        config = req.config;
        secret_ref = secret_ref org alias;
        role_mappings = req.role_mappings;
        enabled = true;
        created_at = now h st;
        updated_at = now h st;
      } in
      elim existing [ none ↦ l | some e ↦ record l { id = e.id; created_at = e.created_at } ]

  -- After the broker applied the provider, or did not.
  unfoldable pub applied :
      Handlers W S → State W S → Text → Text → Text → PutReq → Option Text → Reply × State W S
  unfolding new_link get_link upsert_link record_event
  applied h st org actor alias req (some msg) =
      (reply 502 (message (lit "apply identity provider failed")), st)
  applied h st org actor alias req none =
      let l = new_link h st org alias req (get_link st.links org alias) in
      let st1 : State W S = record (tick st) { links = upsert_link st.links l } in
      (reply 200 (link_body l), record_event h st1 org actor (lit "brokering.configure") alias)

  -- After the secret was stored, or was not; nothing is stored without a secret.
  unfoldable pub secret_stored :
      Handlers W S
      → Broker W
      → State W S
      → Text
      → Text
      → Text
      → PutReq
      → Bool × S
      → Reply × State W S
  unfolding provider_config applied
  secret_stored h b st org actor alias req (false, secrets) =
      (reply 500 (message (lit "store secret failed")), record st { secrets = secrets })
  secret_stored h b st org actor alias req (true, secrets) =
      let (e, w) = b.upsert_identity_provider st.outer org (record {
        alias = alias;
        provider_id = req.link_type;
        enabled = true;
        config = provider_config req;
      }) in
      applied h (record st { secrets = secrets; outer = w }) org actor alias req e

  unfoldable pub put_with :
      Handlers W S
      → Option (Broker W)
      → State W S
      → Text
      → Text
      → Text
      → Option PutReq
      → Reply × State W S
  unfolding secret_stored store_secret secret_ref
  put_with h none st org actor alias req =
      (reply 503 (message (lit "provisioning not configured")), st)
  put_with h (some b) st org actor alias none =
      (reply 422 (message (lit "type must be oidc or saml")), st)
  put_with h (some b) st org actor alias (some req) =
      if not (text_beq req.link_type (lit "oidc")) && not (text_beq req.link_type (lit "saml"))
      then (reply 422 (message (lit "type must be oidc or saml")), st)
      else secret_stored h b st org actor alias req
          (store_secret h.secrets st.secrets (secret_ref org alias) req.secret)

  -- `none` is a body that cannot be read.
  unfoldable pub put :
      Handlers W S → State W S → Text → Text → Text → Option PutReq → Reply × State W S
  unfolding put_with
  put h st org actor alias req = put_with h h.broker st org actor alias req

  -- What `Delete` takes down beside the link; the errors are dropped.
  unfoldable pub dropped : Handlers W S → State W S → Text → Text → State W S
  unfolding secret_ref
  dropped h st org alias = record st {
    outer = elim h.broker [
      | none ↦ st.outer
      | some b ↦ (b.delete_identity_provider st.outer org alias).1
    ];
    secrets = elim h.secrets [
      | none ↦ st.secrets
      | some api ↦ (api.delete st.secrets (secret_ref org alias)).1
    ];
  }

  unfoldable pub delete_found :
      Handlers W S → State W S → Text → Text → Text → Option Link → Reply × State W S
  unfolding dropped delete_link record_event
  delete_found h st org actor alias none =
      (reply 404 (message (lit "identity provider not found")), st)
  delete_found h st org actor alias (some l) =
      let st1 : State W S = record (dropped h st org alias) {
        links = (delete_link st.links org alias).1;
      } in
      (reply 204 no_content, record_event h st1 org actor (lit "brokering.delete") alias)

  unfoldable pub delete : Handlers W S → State W S → Text → Text → Text → Reply × State W S
  unfolding delete_found get_link
  delete h st org actor alias = delete_found h st org actor alias (get_link st.links org alias)

pub data Request : Type 0 where
  puts : Text → Option PutReq → Request
  lists : Request
  deletes : Text → Request

module _ {W S : Type 0} where
  unfoldable pub handle : Handlers W S → State W S → Text → Text → Request → Reply × State W S
  unfolding put delete list_links
  handle h st org actor (puts alias req) = put h st org actor alias req
  handle h st org actor lists = (reply 200 (links_body (list_links st.links org)), st)
  handle h st org actor (deletes alias) = delete h st org actor alias

  unfoldable pub admit : Handlers W S → State W S → Text → Request → Validated → Reply × State W S
  unfolding handle
  admit h st org req (refused e) = (reply 401 (message (lit "invalid token")), st)
  admit h st org req (valid p) =
      if not (has_role p (lit "admin"))
      then (reply 403 (message (lit "admin role required")), st)
      else handle h st org p.user_id req

  unfoldable pub serve :
      {Key : Type 0}
      → Jwt Key
      → JwtValidator Key
      → Text
      → Handlers W S
      → State W S
      → Text
      → Text
      → Request
      → Reply × State W S
  unfolding admit
  serve lib v audience h st org authorization req = elim (bearer authorization) [
    | [] ↦ (reply 401 (message (lit "missing bearer token")), st)
    | a ∷ s ↦ admit h st org req (validate_for_org lib v (a ∷ s) org audience)
  ]
