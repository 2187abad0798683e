-- ===== src/Admin/Edits.antt =====
-- services/control-plane/internal/admin/handlers.go and purge.go: creating, changing and deleting
-- servers, and the purge of an organization.
use mcp_gateway_w.Prelude.{
  ℕ, ◌+◌, Bool, true, false, List, [], ◌∷◌, Option, none, some, Text, lit, text_beq, if◌then◌else◌,
  is_empty,
}
use mcp_gateway_w.Prelude.Dict.{Dict}
use mcp_gateway_w.Authz.{Principal}
use mcp_gateway_w.Admin.{
  Store, remote_http, stdio, unknown, Server, create_server, list_servers, update_server,
  delete_server,
}
use mcp_gateway_w.Admin.Handlers.{
  Handlers, State, message, server_body, no_content, Reply, reply, probe_remote, added, removed,
  now, tick, publish, record_event,
}

pub record CreateReq : Type 0 where
  pub slug : Text
  pub server_type : Text
  pub endpoint_url : Text
  pub command : Text
  pub args : List Text
  pub env : Dict Text
  pub credential_mode : Text
  pub allowed_roles : List Text

pub record PatchReq : Type 0 where
  pub enabled : Option Bool
  pub server_type : Option Text
  pub endpoint_url : Option Text
  pub command : Option Text
  pub args : Option (List Text)
  pub env : Option (Dict Text)
  pub credential_mode : Option Text
  pub allowed_roles : Option (List Text)

abbrev or_old : {A : Type 0} → Option A → A → A
or_old none old = old
or_old (some new) old = new

unfoldable pub patched : PatchReq → Server → Server
patched req s = record s {
  enabled = or_old req.enabled s.enabled;
  server_type = or_old req.server_type s.server_type;
  endpoint_url = or_old req.endpoint_url s.endpoint_url;
  command = or_old req.command s.command;
  args = or_old req.args s.args;
  env = or_old req.env s.env;
  credential_mode = or_old req.credential_mode s.credential_mode;
  allowed_roles = or_old req.allowed_roles s.allowed_roles;
}

-- The message of a refused definition.
unfoldable pub invalid : CreateReq → Option Text
invalid req =
    if is_empty req.slug
    then some (lit "slug required")
    else if text_beq req.server_type remote_http
    then (if is_empty req.endpoint_url
        then some (lit "endpoint_url required for remote_http")
        else none)
    else if text_beq req.server_type stdio
    then (if is_empty req.command then some (lit "command required for stdio") else none)
    else some (lit "type must be remote_http or stdio")

module _ {S : Type 0} where
  -- The definition that is to be stored; a remote endpoint is probed.
  unfoldable pub new_server : Handlers S → State S → Text → CreateReq → Server
  unfolding probe_remote
  new_server h st org req =
      let s : Server = record {
        id = [];
        org_id = org;
        slug = req.slug;
        server_type = req.server_type;
        endpoint_url = req.endpoint_url;
        command = req.command;
        args = req.args;
        env = req.env;
        credential_mode = req.credential_mode;
        credential_set = false;
        allowed_roles = req.allowed_roles;
        enabled = true;
        health = unknown;
        health_detail = [];
        created_at = now h st;
      } in
      let found = probe_remote (h.probe st.readings req.endpoint_url) in
      if text_beq req.server_type remote_http
      then record s { health = found.0; health_detail = found.1 }
      else s

  -- From the store's answer on.
  unfoldable pub created :
      Handlers S → State S → Text → Option Principal → Option Server × Store → Reply × State S
  unfolding added record_event
  created h st org p (none, m) = (reply 409 (message (lit "slug already in use")), tick st)
  created h st org p (some s, m) =
      let st1 : State S = record (tick st) { store = m } in
      let st2 : State S = if s.enabled then publish st1 (added s) else st1 in
      (
        reply 201 (server_body s),
        record_event h st2 org p (lit "server.create") s.slug ((lit "type", s.server_type) ∷ []),
      )

  unfoldable pub create_valid :
      Handlers S → State S → Text → Option Principal → CreateReq → Option Text → Reply × State S
  unfolding new_server created create_server
  create_valid h st org p req (some msg) = (reply 422 (message msg), st)
  create_valid h st org p req none =
      created h st org p (create_server st.store (new_server h st org req))

  -- `none` is a body that cannot be read.
  unfoldable pub create :
      Handlers S → State S → Text → Option Principal → Option CreateReq → Reply × State S
  unfolding invalid create_valid
  create h st org p none = (reply 400 (message (lit "invalid body")), st)
  create h st org p (some req) = create_valid h st org p req (invalid req)

  unfoldable pub updated :
      Handlers S → State S → Text → Option Principal → Option Server × Store → Reply × State S
  unfolding added removed record_event
  updated h st org p (none, m) = (reply 500 (message (lit "server not found")), st)
  updated h st org p (some s, m) =
      let st1 : State S = record st { store = m } in
      let st2 : State S = publish st1 (if s.enabled then added s else removed s) in
      (reply 200 (server_body s), record_event h st2 org p (lit "server.update") s.slug [])

  unfoldable pub patch :
      Handlers S
      → State S
      → Text
      → Option Principal
      → Option Server
      → Option PatchReq
      → Reply × State S
  unfolding patched updated update_server
  patch h st org p none req = (reply 404 (message (lit "not found")), st)
  patch h st org p (some s) none = (reply 400 (message (lit "invalid body")), st)
  patch h st org p (some s) (some req) = updated h st org p (update_server st.store (patched req s))

  unfoldable pub deleted :
      Handlers S → State S → Text → Option Principal → Server → Bool × Store → Reply × State S
  unfolding removed record_event
  deleted h st org p s (false, m) = (reply 404 (message (lit "not found")), st)
  deleted h st org p s (true, m) = (
    reply 204 no_content,
    record_event h (publish (record st { store = m }) (removed s)) org p (lit "server.delete")
        s.slug [],
  )

  unfoldable pub delete :
      Handlers S → State S → Text → Option Principal → Text → Option Server → Reply × State S
  unfolding deleted delete_server
  delete h st org p id none = (reply 404 (message (lit "not found")), st)
  delete h st org p id (some s) = deleted h st org p s (delete_server st.store org id)

  -- The loop of `PurgeOrg`, with the number of servers that it deleted.
  unfoldable pub purge_one : State S → Server → Bool × Store → ℕ × State S
  unfolding removed
  purge_one st s (false, m) = (0, st)
  purge_one st s (true, m) = (1, publish (record st { store = m }) (removed s))

  unfoldable pub purge_all : List Server → State S → Text → ℕ × State S
  unfolding purge_one delete_server
  purge_all [] st org = (0, st)
  purge_all (s ∷ ss) st org =
      let first = purge_one st s (delete_server st.store org s.id) in
      let rest = purge_all ss first.1 org in (first.0 + rest.0, rest.1)

  unfoldable pub purge_org : State S → Text → ℕ × State S
  unfolding purge_all list_servers
  purge_org st org = purge_all (list_servers st.store org) st org
