-- ===== src/Scim/Server.antt =====
-- services/control-plane/internal/scimbridge/server.go: the routes behind `requireOrgAdmin` and behind
-- `scimAuth`. The constant document of the service provider is left out.
use mcp_gateway_w.Prelude.{not, List, [], ◌∷◌, Option, none, some, Text, lit, bearer, if◌then◌else◌}
use mcp_gateway_w.Prelude.Dict.{Dict}
use mcp_gateway_w.Authz.{has_role, Jwt, JwtValidator, Validated, valid, refused, validate_for_org}
use mcp_gateway_w.Scim.{Directory}
use mcp_gateway_w.Scim.Config.{
  Handlers, State, Reply, reply, message, scim_error, configure, get_config, rotate, disable,
  Authenticated, acts_for, denied, scim_auth,
}
use mcp_gateway_w.Scim.Users.{
  ScimUser, Operation, create_user, replace_user, patch_user, query_users,
}

pub data AdminRequest : Type 0 where
  configures : Dict Text → AdminRequest
  gets_config : AdminRequest
  rotates : AdminRequest
  disables : AdminRequest

pub data Request : Type 0 where
  creates_user : Option ScimUser → Request
  queries_users : Text → Request
  replaces_user : Text → Option ScimUser → Request
  patches_user : Text → Option (List Operation) → Request

module _ {W : Type 0} where
  unfoldable pub handle_admin : Handlers W → State W → Text → Text → AdminRequest → Reply × State W
  unfolding configure get_config rotate disable
  handle_admin h st org actor (configures mappings) = configure h st org actor mappings
  handle_admin h st org actor gets_config = (get_config h st org, st)
  handle_admin h st org actor rotates = rotate h st org actor
  handle_admin h st org actor disables = disable h st org actor

  unfoldable pub admit : Handlers W → State W → Text → AdminRequest → Validated → Reply × State W
  unfolding handle_admin
  admit h st org req (refused e) = (reply 401 (message (lit "invalid token")), st)
  admit h st org req (valid p) =
      if not (has_role p (lit "admin"))
      then (reply 403 (message (lit "admin role required")), st)
      else handle_admin h st org p.user_id req

  unfoldable pub serve_admin :
      {Key : Type 0}
      → Jwt Key
      → JwtValidator Key
      → Text
      → Handlers W
      → State W
      → Text
      → Text
      → AdminRequest
      → Reply × State W
  unfolding admit
  serve_admin lib v audience h st org authorization req = elim (bearer authorization) [
    | [] ↦ (reply 401 (message (lit "missing bearer token")), st)
    | a ∷ s ↦ admit h st org req (validate_for_org lib v (a ∷ s) org audience)
  ]

  unfoldable pub handle : Handlers W → Directory W → State W → Text → Request → Reply × State W
  unfolding create_user query_users replace_user patch_user
  handle h dir st org (creates_user u) = create_user h dir st org u
  handle h dir st org (queries_users filter) = (query_users h dir st org filter, st)
  handle h dir st org (replaces_user id u) = replace_user h dir st org id u
  handle h dir st org (patches_user id os) = patch_user h dir st org id os

  -- A request without a directory was answered by the check of the bearer.
  unfoldable pub serve_authenticated :
      Handlers W → State W → Request → Option (Directory W) → Authenticated → Reply × State W
  unfolding handle
  serve_authenticated h st req dir (denied status msg) = (reply status (scim_error msg), st)
  serve_authenticated h st req none (acts_for org) =
      (reply 503 (scim_error (lit "provisioning not configured")), st)
  serve_authenticated h st req (some dir) (acts_for org) = handle h dir st org req

  unfoldable pub serve : Handlers W → State W → Text → Request → Reply × State W
  unfolding serve_authenticated scim_auth bearer
  serve h st authorization req =
      serve_authenticated h st req h.dir (scim_auth h st (bearer authorization))
