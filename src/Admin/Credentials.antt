-- ===== src/Admin/Credentials.antt =====
-- services/control-plane/internal/admin/credentials.go: storing and deleting the credentials of a
-- server, those that its organization shares and those of one user.
use mcp_gateway_w.Prelude.{Bool, true, false, [], ◌∷◌, Option, none, some, Text, lit}
use mcp_gateway_w.Prelude.Dict.{Dict}
use mcp_gateway_w.Authz.{Principal}
use mcp_gateway_w.Secrets.{org_ref, user_ref}
use mcp_gateway_w.Admin.{Server, get_server, update_server}
use mcp_gateway_w.Admin.Handlers.{
  Handlers, State, message, no_content, Reply, reply, rotated, publish, record_event,
}

-- `bindValues`: an object that is not empty.
abbrev pub bind_values : Option (Dict Text) → Option (Dict Text)
bind_values none = none
bind_values (some []) = none
bind_values (some (kv ∷ m)) = some (kv ∷ m)

abbrev scope : Text → Dict Text
scope s = (lit "scope", s) ∷ []

module _ {S : Type 0} where
  -- Stores a server; the error is dropped.
  abbrev keep : State S → Server → State S
  keep st s = record st { store = (update_server st.store s).1 }

  -- Sets the flag of a server that does not have it.
  unfoldable pub marked : State S → Server → Bool → State S × Server
  unfolding update_server
  marked st s true = (st, s)
  marked st s false = let s1 : Server = record s { credential_set = true } in (keep st s1, s1)

  unfoldable pub stored_org :
      Handlers S → State S → Text → Option Principal → Text → Server → Bool × S → Reply × State S
  unfolding record_event rotated marked
  stored_org h st org p id s (false, secrets) =
      (reply 500 (message (lit "failed to store secret")), record st { secrets = secrets })
  stored_org h st org p id s (true, secrets) =
      let (st1, s1) = marked (record st { secrets = secrets }) s s.credential_set in
      let st2 = record_event h st1 org p (lit "credentials.put") id (scope (lit "org")) in
      (reply 204 no_content, publish st2 (rotated s1 []))

  unfoldable pub put_org_credentials :
      Handlers S
      → State S
      → Text
      → Option Principal
      → Text
      → Option Server
      → Option (Dict Text)
      → Reply × State S
  unfolding stored_org org_ref
  put_org_credentials h st org p id none v = (reply 404 (message (lit "not found")), st)
  put_org_credentials h st org p id (some s) none =
      (reply 422 (message (lit "non-empty key/value object required")), st)
  put_org_credentials h st org p id (some s) (some v) =
      stored_org h st org p id s (h.secrets.put st.secrets (org_ref org id) v)

  -- What follows the deletion, for the server if it is there.
  unfoldable pub cleared_org : State S → Option Server → State S
  unfolding rotated update_server
  cleared_org st none = st
  cleared_org st (some s) =
      let s1 : Server = record s { credential_set = false } in publish (keep st s1) (rotated s1 [])

  unfoldable pub deleted_org :
      Handlers S → State S → Text → Option Principal → Text → Bool × S → Reply × State S
  unfolding record_event cleared_org get_server
  deleted_org h st org p id (false, secrets) =
      (reply 500 (message (lit "failed to delete secret")), record st { secrets = secrets })
  deleted_org h st org p id (true, secrets) =
      let st1 : State S = record st { secrets = secrets } in
      let st2 = record_event h st1 org p (lit "credentials.delete") id (scope (lit "org")) in
      (reply 204 no_content, cleared_org st2 (get_server st2.store org id))

  unfoldable pub delete_org_credentials :
      Handlers S → State S → Text → Option Principal → Text → Reply × State S
  unfolding deleted_org org_ref
  delete_org_credentials h st org p id =
      deleted_org h st org p id (h.secrets.delete st.secrets (org_ref org id))

  unfoldable pub stored_my :
      Handlers S → State S → Text → Principal → Text → Server → Bool × S → Reply × State S
  unfolding record_event rotated
  stored_my h st org p id s (false, secrets) =
      (reply 500 (message (lit "failed to store secret")), record st { secrets = secrets })
  stored_my h st org p id s (true, secrets) =
      let st1 : State S = record st { secrets = secrets } in
      let st2 = record_event h st1 org (some p) (lit "credentials.put") id (scope (lit "user")) in
      (reply 204 no_content, publish st2 (rotated s p.user_id))

  unfoldable pub put_my_credentials :
      Handlers S
      → State S
      → Text
      → Option Principal
      → Text
      → Option Server
      → Option (Dict Text)
      → Reply × State S
  unfolding stored_my user_ref
  put_my_credentials h st org p id none v = (reply 404 (message (lit "not found")), st)
  put_my_credentials h st org none id (some s) v = (reply 401 (message (lit "no principal")), st)
  put_my_credentials h st org (some p) id (some s) none =
      (reply 422 (message (lit "non-empty key/value object required")), st)
  put_my_credentials h st org (some p) id (some s) (some v) =
      stored_my h st org p id s (h.secrets.put st.secrets (user_ref org id p.user_id) v)

  unfoldable pub cleared_my : State S → Text → Option Server → State S
  unfolding rotated
  cleared_my st user none = st
  cleared_my st user (some s) = publish st (rotated s user)

  unfoldable pub deleted_my :
      Handlers S → State S → Text → Principal → Text → Bool × S → Reply × State S
  unfolding record_event cleared_my get_server
  deleted_my h st org p id (false, secrets) =
      (reply 500 (message (lit "failed to delete secret")), record st { secrets = secrets })
  deleted_my h st org p id (true, secrets) =
      let st1 : State S = record st { secrets = secrets } in
      let st2 =
        record_event h st1 org (some p) (lit "credentials.delete") id (scope (lit "user")) in
      (reply 204 no_content, cleared_my st2 p.user_id (get_server st2.store org id))

  unfoldable pub delete_my_credentials :
      Handlers S → State S → Text → Option Principal → Text → Reply × State S
  unfolding deleted_my user_ref
  delete_my_credentials h st org none id = (reply 401 (message (lit "no principal")), st)
  delete_my_credentials h st org (some p) id =
      deleted_my h st org p id (h.secrets.delete st.secrets (user_ref org id p.user_id))
