-- ===== src/Admin/Api.antt =====
-- services/control-plane/internal/admin/api.go: the routes of one organization behind `requireAdmin`.
-- The route that prints the configured quotas is left out.
use mcp_gateway_w.Prelude.{
  not, List, [], ◌∷◌, Option, none, some, Text, lit, bearer, if◌then◌else◌, split_at, trim_space,
}
use mcp_gateway_w.Prelude.Dict.{Dict}
use mcp_gateway_w.Audit.{list_records}
use mcp_gateway_w.Authz.{
  Principal, has_role, Jwt, JwtValidator, Validated, valid, refused, validate_for_org,
}
use mcp_gateway_w.Admin.{get_server, list_servers}
use mcp_gateway_w.Admin.Handlers.{
  Handlers, State, message, server_body, servers_body, records_body, Reply, reply,
}
use mcp_gateway_w.Admin.Edits.{CreateReq, PatchReq, create, patch, delete}
use mcp_gateway_w.Admin.Credentials.{
  bind_values, put_org_credentials, delete_org_credentials, put_my_credentials,
  delete_my_credentials,
}

pub data Request : Type 0 where
  creates : Option CreateReq → Request
  lists : Request
  gets : Text → Request
  patches : Text → Option PatchReq → Request
  deletes : Text → Request
  puts_org_credentials : Text → Option (Dict Text) → Request
  deletes_org_credentials : Text → Request
  puts_my_credentials : Text → Option (Dict Text) → Request
  deletes_my_credentials : Text → Request
  lists_audit : Request

unfoldable pub non_blank : List Text → List Text
unfolding trim_space
non_blank [] = []
non_blank (p ∷ ps) =
    let rest = non_blank ps in elim (trim_space p) [ [] ↦ rest | b ∷ s ↦ (b ∷ s) ∷ rest ]

-- `splitCSV`.
unfoldable pub split_csv : Text → List Text
unfolding non_blank split_at
split_csv s = non_blank (split_at b',' [] s)

module _ {S : Type 0} where
  unfoldable pub handle : Handlers S → State S → Text → Option Principal → Request → Reply × State S
  unfolding create patch delete put_org_credentials delete_org_credentials put_my_credentials
      delete_my_credentials get_server list_servers list_records
  handle h st org p (creates req) = create h st org p req
  handle h st org p lists = (reply 200 (servers_body (list_servers st.store org)), st)
  handle h st org p (gets id) = elim (get_server st.store org id) [
    | none ↦ (reply 404 (message (lit "not found")), st)
    | some s ↦ (reply 200 (server_body s), st)
  ]
  handle h st org p (patches id req) = patch h st org p (get_server st.store org id) req
  handle h st org p (deletes id) = delete h st org p id (get_server st.store org id)
  handle h st org p (puts_org_credentials id v) =
      put_org_credentials h st org p id (get_server st.store org id) (bind_values v)
  handle h st org p (deletes_org_credentials id) = delete_org_credentials h st org p id
  handle h st org p (puts_my_credentials id v) =
      put_my_credentials h st org p id (get_server st.store org id) (bind_values v)
  handle h st org p (deletes_my_credentials id) = delete_my_credentials h st org p id
  handle h st org p lists_audit = elim h.audit [
    | none ↦ (reply 200 (records_body []), st)
    | some _ ↦ (reply 200 (records_body (list_records org 200 st.records)), st)
  ]

  unfoldable pub admit : Handlers S → State S → Text → Request → Validated → Reply × State S
  unfolding handle
  admit h st org req (refused e) = (reply 401 (message (lit "invalid token")), st)
  admit h st org req (valid p) =
      if not (has_role p (lit "admin"))
      then (reply 403 (message (lit "admin role required")), st)
      else handle h st org (some p) req

  unfoldable pub serve :
      {Key : Type 0}
      → Jwt Key
      → JwtValidator Key
      → Text
      → Handlers S
      → State S
      → Text
      → Text
      → Request
      → Reply × State S
  unfolding admit
  serve lib v audience h st org authorization req = elim (bearer authorization) [
    | [] ↦ (reply 401 (message (lit "missing bearer token")), st)
    | a ∷ s ↦ admit h st org req (validate_for_org lib v (a ∷ s) org audience)
  ]
