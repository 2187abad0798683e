-- ===== src/Idp/Rest/Api.antt =====
-- rest.go, brokering.go, directory.go and realms.go: the calls of the admin API. An answer of `none`
-- is success where a call answers an error only.
use mcp_gateway_w.Prelude.{
  ℕ, ltb, Bool, true, false, not, ◌||◌, List, [], ◌∷◌, ◌++◌, Option, none, some, Text, lit, nat_beq,
  if◌then◌else◌, is_empty,
}
use mcp_gateway_w.Prelude.Dict.{Dict}
use mcp_gateway_w.Idp.{Realm, Client, ProtocolMapper, User, Answer, ok, failed}
use mcp_gateway_w.Brokering.{IdentityProvider, Broker}
use mcp_gateway_w.Idp.Escape.{path_escape, query_escape}
use mcp_gateway_w.Idp.Rest.{
  Json, text, boolean, number, texts, object, Body, fields, one_of, Response, Exchanged, no_answer,
  answer, Network, State, api_err, do_request,
}

abbrev realm_path : Text → Text
realm_path realm = lit "/admin/realms/" ++ path_escape realm

-- What stands behind the last slash.
unfoldable pub after_last_slash : Text → Option Text
after_last_slash [] = none
after_last_slash (b ∷ s) = elim (after_last_slash s) [
  | some t ↦ some t
  | none ↦ if nat_beq b b'/' then some s else none
]

unfoldable pub id_from_location : Response → Text
unfolding after_last_slash
id_from_location r = elim (after_last_slash r.location) [ none ↦ [] | some t ↦ t ]

abbrev unless_zero : Text → ℕ → Dict Json
unless_zero k n = if ltb 0 n then (k, number n) ∷ [] else []

unfoldable pub realm_rep : Realm → Body
realm_rep r = fields (
    (lit "realm", text r.name)
    ∷ (lit "enabled", boolean r.enabled)
    ∷ (unless_zero (lit "accessTokenLifespan") r.access_token_lifespan
        ++ (unless_zero (lit "ssoSessionIdleTimeout") r.sso_idle
            ++ (unless_zero (lit "ssoSessionMaxLifespan") r.sso_max
                ++ (if is_empty r.ssl_required
                    then []
                    else (lit "sslRequired", text r.ssl_required) ∷ [])))))

abbrev unless_empty : Text → List Text → Dict Json
unless_empty k [] = []
unless_empty k (t ∷ ts) = (k, texts (t ∷ ts)) ∷ []

abbrev unless_no_entry : Text → Dict Text → Dict Json
unless_no_entry k [] = []
unless_no_entry k (t ∷ ts) = (k, object (t ∷ ts)) ∷ []

unfoldable pub client_rep : Client → Body
client_rep c = fields (
    (lit "clientId", text c.client_id)
    ∷ (lit "name", text c.name)
    ∷ (lit "publicClient", boolean c.public_client)
    ∷ (lit "standardFlowEnabled", boolean c.standard_flow)
    ∷ (lit "directAccessGrantsEnabled", boolean c.direct_grants)
    ∷ (unless_empty (lit "redirectUris") c.redirect_uris
        ++ (unless_empty (lit "webOrigins") c.web_origins
            ++ unless_no_entry (lit "attributes") c.attributes)))

unfoldable pub mapper_rep : ProtocolMapper → Body
mapper_rep m = fields (
    (lit "name", text m.name)
    ∷ (lit "protocol", text (lit "openid-connect"))
    ∷ (lit "protocolMapper", text m.mapper)
    ∷ (lit "config", object m.config)
    ∷ [])

unfoldable pub user_rep : User → Body
user_rep u = fields (
    (lit "username", text u.username)
    ∷ (lit "email", text u.email)
    ∷ (lit "enabled", boolean u.enabled)
    ∷ (lit "emailVerified", boolean false)
    ∷ unless_empty (lit "requiredActions") u.required_actions)

unfoldable pub provider_rep : IdentityProvider → Body
provider_rep p = fields (
    (lit "alias", text p.alias)
    ∷ (lit "providerId", text p.provider_id)
    ∷ (lit "enabled", boolean p.enabled)
    ∷ (lit "config", object p.config)
    ∷ [])

abbrev role_rep : Text × Text → Body
role_rep (id, name) = one_of ((lit "id", text id) ∷ (lit "name", text name) ∷ [])

-- `nil` for one of two accepted codes, the error of the response for every other.
unfoldable pub expect : ℕ → ℕ → Text → Exchanged → Option Text
unfolding api_err
expect a b op (no_answer msg) = some msg
expect a b op (answer r) =
    if nat_beq r.status a || nat_beq r.status b then none else some (api_err op r)

-- The id of what was created.
unfoldable pub created : Text → Exchanged → Answer Text
unfolding api_err id_from_location
created op (no_answer msg) = failed msg
created op (answer r) =
    if nat_beq r.status 201 then ok (id_from_location r) else failed (api_err op r)

abbrev non_empty : List Text → List Text
non_empty [] = []
non_empty (t ∷ ts) = if is_empty t then non_empty ts else t ∷ non_empty ts

abbrev pub instances : Text → Text
instances realm = realm_path realm ++ lit "/identity-provider/instances"

abbrev first : List Text → Option Text
first [] = none
first (t ∷ ts) = some t

unfoldable pub exists_from : Exchanged → Answer Bool
unfolding api_err
exists_from (no_answer msg) = failed msg
exists_from (answer r) =
    if nat_beq r.status 200
    then ok true
    else if nat_beq r.status 404
    then ok false
    else failed (api_err (lit "get realm") r)

module _ {W : Type 0} (net : Network W) where
  abbrev expecting : ℕ → ℕ → Text → Exchanged × State W → Option Text × State W
  expecting a b op (e, st) = (expect a b op e, st)

  unfoldable pub realm_exists : State W → Text → Answer Bool × State W
  unfolding exists_from do_request
  realm_exists st realm =
      let (e, st1) = do_request net st (lit "GET") (realm_path realm) none in (exists_from e, st1)

  unfoldable pub create_realm : State W → Realm → Option Text × State W
  unfolding expect do_request realm_rep
  create_realm st r =
      expecting 201 201 (lit "create realm")
        (do_request net st (lit "POST") (lit "/admin/realms") (some (realm_rep r)))

  unfoldable pub update_realm : State W → Realm → Option Text × State W
  unfolding expect do_request realm_rep
  update_realm st r =
      expecting 204 200 (lit "update realm")
        (do_request net st (lit "PUT") (realm_path r.name) (some (realm_rep r)))

  unfoldable pub set_realm_enabled : State W → Text → Bool → Option Text × State W
  unfolding expect do_request
  set_realm_enabled st realm enabled = expecting 204 200 (lit "set realm enabled") (
      do_request net st (lit "PUT") (realm_path realm)
        (some (fields ((lit "realm", text realm) ∷ (lit "enabled", boolean enabled) ∷ []))))

  unfoldable pub delete_realm : State W → Text → Option Text × State W
  unfolding expect do_request
  delete_realm st realm =
      expecting 204 404 (lit "delete realm")
        (do_request net st (lit "DELETE") (realm_path realm) none)

  unfoldable pub create_client : State W → Text → Client → Answer Text × State W
  unfolding created do_request client_rep
  create_client st realm c =
      let (e, st1) =
        do_request net st (lit "POST") (realm_path realm ++ lit "/clients") (some (client_rep c)) in
      (created (lit "create client") e, st1)

  unfoldable pub add_protocol_mapper :
      State W → Text → Text → ProtocolMapper → Option Text × State W
  unfolding expect do_request mapper_rep
  add_protocol_mapper st realm client_id m = expecting 201 409 (lit "add protocol mapper") (
      do_request net st (lit "POST")
        (realm_path realm
          ++ (lit "/clients/" ++ (path_escape client_id ++ lit "/protocol-mappers/models")))
        (some (mapper_rep m)))

  unfoldable pub create_realm_role : State W → Text → Text → Option Text × State W
  unfolding expect do_request
  create_realm_role st realm role = expecting 201 409 (lit "create realm role") (
      do_request net st (lit "POST") (realm_path realm ++ lit "/roles")
        (some (fields ((lit "name", text role) ∷ []))))

  unfoldable pub create_user : State W → Text → User → Answer Text × State W
  unfolding created do_request user_rep
  create_user st realm u =
      let (e, st1) =
        do_request net st (lit "POST") (realm_path realm ++ lit "/users") (some (user_rep u)) in
      (created (lit "create user") e, st1)

  -- The role that the first request of `AssignRealmRole` and `RemoveRealmRole` reads.
  unfoldable pub role_from : Exchanged → Answer (Text × Text)
  unfolding api_err
  role_from (no_answer msg) = failed msg
  role_from (answer r) =
      if not (nat_beq r.status 200)
      then failed (api_err (lit "get role") r)
      else elim (net.decode_role r.body) [ none ↦ failed (lit "decode") | some x ↦ ok x ]

  unfoldable pub map_role :
      Text → Text → Text → Text → Answer (Text × Text) → State W → Option Text × State W
  unfolding expect do_request
  map_role method op realm user_id (failed msg) st = (some msg, st)
  map_role method op realm user_id (ok x) st = expecting 204 200 op (
      do_request net st method
        (realm_path realm ++ (lit "/users/" ++ (path_escape user_id ++ lit "/role-mappings/realm")))
        (some (role_rep x)))

  unfoldable pub with_role : Text → Text → State W → Text → Text → Text → Option Text × State W
  unfolding map_role role_from do_request
  with_role method op st realm user_id role =
      let (e, st1) =
        do_request net st (lit "GET") (realm_path realm ++ (lit "/roles/" ++ path_escape role))
          none in
      map_role method op realm user_id (role_from e) st1

  unfoldable pub assign_realm_role : State W → Text → Text → Text → Option Text × State W
  unfolding with_role
  assign_realm_role st realm user_id role =
      with_role (lit "POST") (lit "assign realm role") st realm user_id role

  unfoldable pub remove_realm_role : State W → Text → Text → Text → Option Text × State W
  unfolding with_role
  remove_realm_role st realm user_id role =
      with_role (lit "DELETE") (lit "remove realm role") st realm user_id role

  unfoldable pub user_from : Exchanged → Answer (Option Text)
  unfolding api_err
  user_from (no_answer msg) = failed msg
  user_from (answer r) =
      if not (nat_beq r.status 200)
      then failed (api_err (lit "find user") r)
      else elim (net.decode_users r.body) [ none ↦ failed (lit "decode") | some us ↦ ok (first us) ]

  unfoldable pub find_user_by_username : State W → Text → Text → Answer (Option Text) × State W
  unfolding user_from do_request query_escape
  find_user_by_username st realm username =
      let (e, st1) =
        do_request net st (lit "GET")
          (realm_path realm ++ (lit "/users?exact=true&username=" ++ query_escape username)) none in
      (user_from e, st1)

  unfoldable pub set_user_enabled : State W → Text → Text → Bool → Option Text × State W
  unfolding expect do_request
  set_user_enabled st realm user_id enabled = expecting 204 200 (lit "set user enabled") (
      do_request net st (lit "PUT") (realm_path realm ++ (lit "/users/" ++ path_escape user_id))
        (some (fields ((lit "enabled", boolean enabled) ∷ []))))

  -- After the attempt to create the provider, where there was one already it is updated.
  unfoldable pub upserted : Text → IdentityProvider → Exchanged → State W → Option Text × State W
  unfolding expect do_request provider_rep api_err
  upserted realm p (no_answer msg) st = (some msg, st)
  upserted realm p (answer r) st =
      let update = expecting 204 200 (lit "update identity provider") (
        do_request net st (lit "PUT") (instances realm ++ (b'/' ∷ path_escape p.alias))
          (some (provider_rep p))) in
      if nat_beq r.status 201
      then (none, st)
      else if nat_beq r.status 409
      then update
      else (some (api_err (lit "create identity provider") r), st)

  unfoldable pub upsert_identity_provider :
      State W → Text → IdentityProvider → Option Text × State W
  unfolding upserted do_request provider_rep
  upsert_identity_provider st realm p =
      let (e, st1) = do_request net st (lit "POST") (instances realm) (some (provider_rep p)) in
      upserted realm p e st1

  unfoldable pub delete_identity_provider : State W → Text → Text → Option Text × State W
  unfolding expect do_request
  delete_identity_provider st realm alias =
      expecting 204 404 (lit "delete identity provider")
        (do_request net st (lit "DELETE") (instances realm ++ (b'/' ∷ path_escape alias)) none)

  -- The client as the broker of the handlers.
  abbrev pub rest_broker : Broker (State W)
  rest_broker = record {
    upsert_identity_provider = upsert_identity_provider;
    delete_identity_provider = delete_identity_provider;
  }

  unfoldable pub realms_from : Exchanged → Answer (List Text)
  unfolding api_err
  realms_from (no_answer msg) = failed msg
  realms_from (answer r) =
      if not (nat_beq r.status 200)
      then failed (api_err (lit "list realms") r)
      else elim (net.decode_realms r.body) [
        | none ↦ failed (lit "decode")
        | some rs ↦ ok (non_empty rs)
      ]

  unfoldable pub list_realms : State W → Answer (List Text) × State W
  unfolding realms_from do_request
  list_realms st =
      let (e, st1) =
        do_request net st (lit "GET") (lit "/admin/realms?briefRepresentation=true") none in
      (realms_from e, st1)
