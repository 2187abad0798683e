-- ===== src/Mcp.antt =====
-- services/gateway/internal/mcp/jsonrpc.go and handler.go: the dispatch of MCP requests over the
-- servers of the principal's organization. JSON decoding, the downstream servers and the providers
-- are not part of these files: they are the fields of `World`. `calls` lists what was passed on to
-- downstream servers and `denials` what the deny recorder was told, latest first. Spans are left out.
mod Calls
mod Collected
mod Hidden
mod Isolation
mod Listing
mod Replies
mod Tests
use mcp_gateway_w.Prelude.{
  ℕ, Bool, true, false, not, ◌&&◌, ◌||◌, List, [], ◌∷◌, ◌++◌, Option, none, some, Text, lit, ◌==◌,
  text_beq, if◌then◌else◌, negsuc, ℤ,
}
use mcp_gateway_w.Prelude.Dict.{Dict, lookup, insert}
use mcp_gateway_w.Aggregate.{Tool, ServerTools, Result, aggregate, cut}
use mcp_gateway_w.Quota.{Enforcer, enforcer_allow}
use mcp_gateway_w.Downstream.{
  Registry, Catalog, registry_for, can_access, visible_slugs, Found, ready, to_build, missing,
  find_for_user, get_for_user, Answer, instance_of, not_found, provider_error,
}

-- `id` and `params` are raw JSON; an absent one is empty.
pub record Request : Type 0 where
  pub jsonrpc : Text
  pub id : Text
  pub method : Text
  pub params : Text

pub data Body : Type 0 where
  server_info : Text → Text → Body
  empty_object : Body
  tool_list : List Tool → Body
  raw : Text → Body

pub record Error : Type 0 where
  pub code : ℤ
  pub message : Text

pub data Outcome : Type 0 where
  result : Body → Outcome
  error : Error → Outcome

pub record Response : Type 0 where
  pub id : Text
  pub outcome : Outcome

-- -32600, -32601, -32602, -32603 and -32000.
abbrev pub code_invalid_request : ℤ
code_invalid_request = negsuc 32599

abbrev pub code_method_not_found : ℤ
code_method_not_found = negsuc 32600

abbrev pub code_invalid_params : ℤ
code_invalid_params = negsuc 32601

abbrev pub code_internal : ℤ
code_internal = negsuc 32602

abbrev pub code_rate_limited : ℤ
code_rate_limited = negsuc 31999

pub is_notification : Request → Bool
is_notification req = text_beq req.id []

abbrev pub new_error : Text → ℤ → Text → Response
new_error id code msg = record { id = id; outcome = error (record { code = code; message = msg }) }

abbrev pub new_result : Text → Body → Response
new_result id b = record { id = id; outcome = result b }

pub record Principal : Type 0 where
  pub org_id : Text
  pub user_id : Text
  pub username : Text
  pub roles : List Text

pub data Called : Type 0 where
  returned : Text → Called
  failed : Text → Called

-- What the handler relies on: `json.Unmarshal` of the call's parameters, the tools that an instance
-- lists, what a tool call on an instance answers, and the instance a provider builds for a user.
pub record World : Type 0 where
  pub decode_params : Text → Option (Text × Text)
  pub list_tools : ℕ → Option (List Tool)
  pub call_tool : ℕ → Text → Text → Called
  pub build : ℕ → Text → Option ℕ

pub record Denial : Type 0 where
  pub org : Text
  pub user : Text
  pub target : Text
  pub reason : Text

pub record Call : Type 0 where
  pub inst : ℕ
  pub tool : Text
  pub arguments : Text

pub record Handler : Type 0 where
  pub catalog : Catalog
  pub quota : Option Enforcer
  pub records_denials : Bool
  pub denials : List Denial
  pub calls : List Call

pub record Caller : Type 0 where
  pub org : Text
  pub user : Text
  pub roles : List Text

-- A missing principal reads as empty names and no roles.
pub caller_of : Option Principal → Caller
caller_of none = record { org = []; user = []; roles = [] }
caller_of (some p) = record { org = p.org_id; user = p.user_id; roles = p.roles }

abbrev pub provider_answer : World → Text → Found → Option ℕ
provider_answer w user (to_build p) = w.build p user
provider_answer w user (ready i) = none
provider_answer w user missing = none

-- `reg.GetForUser(slug, user)`, with the provider's answer where it is called.
pub resolve : World → Registry → Text → Text → Registry × Answer
resolve w r slug user =
    let (r', a, closed) =
      get_for_user r slug user (provider_answer w user (find_for_user r slug user)) in
    (r', a)

-- The loop of `aggregate`: a server that cannot be resolved or does not list is skipped.
pub collect : World → Registry → Text → List Text → Registry × List ServerTools
collect w r user [] = (r, [])
collect w r user (slug ∷ slugs) =
    let (r', a) = resolve w r slug user in
    let (r'', servers) = collect w r' user slugs in
    elim a [
      | instance_of i ↦ elim (w.list_tools i) [
        | some tools ↦ (r'', record { slug = slug; tools = tools } ∷ servers)
        | none ↦ (r'', servers)
      ]
      | not_found ↦ (r'', servers)
      | provider_error ↦ (r'', servers)
    ]

pub list_all : World → Handler → Caller → Handler × Result
list_all w h c =
    let reg = registry_for h.catalog c.org in
    let (reg', servers) = collect w reg c.user (visible_slugs reg c.roles) in
    (record h { catalog = insert c.org reg' h.catalog }, aggregate servers)

pub unknown_tool : Request → Text → Response
unknown_tool req name = new_error req.id code_method_not_found (lit "unknown tool: " ++ name)

deny : Handler → Caller → Text → Handler
deny h c name =
    if h.records_denials
    then record h {
      denials =
          record {
            org = c.org;
            user = c.user;
            target = name;
            reason = lit "forbidden_or_unknown_server";
          }
          ∷ h.denials;
    }
    else h

unfoldable pub called_response : Request → Called → Response
called_response req (failed msg) = new_error req.id code_internal msg
called_response req (returned out) = new_result req.id (raw out)

-- From `GetForUser` on, for a slug that the caller may use.
pub call_server : World → Handler → Caller → Request → Text → Text → Text → Handler × Response
unfolding called_response
call_server w h c req slug tool args =
    let (reg', a) = resolve w (registry_for h.catalog c.org) slug c.user in
    let h' = record h { catalog = insert c.org reg' h.catalog } in
    elim a [
      | not_found ↦ (h', new_error req.id code_internal (lit "server unavailable: " ++ slug))
      | provider_error ↦
          (h', new_error req.id code_invalid_params (lit "credentials not configured for " ++ slug))
      | instance_of i ↦ (
        record h' { calls = record { inst = i; tool = tool; arguments = args } ∷ h'.calls },
        called_response req (w.call_tool i tool args),
      )
    ]

pub call_named : World → Handler → Caller → Request → Text → Text → Handler × Response
unfolding deny call_server unknown_tool
call_named w h c req name args = elim (cut name) [
  | none ↦ (deny h c name, unknown_tool req name)
  | some (slug, tool) ↦
      if can_access (registry_for h.catalog c.org) slug c.roles
      then call_server w h c req slug tool args
      else (deny h c name, unknown_tool req name)
]

call_decoded : World → Handler → Caller → Request → Option (Text × Text) → Handler × Response
unfolding call_named
call_decoded w h c req none =
    (h, new_error req.id code_invalid_params (lit "invalid tools/call params"))
call_decoded w h c req (some (name, args)) =
    if text_beq name []
    then (h, new_error req.id code_invalid_params (lit "invalid tools/call params"))
    else call_named w h c req name args

-- The quota's two limiters read the clock at `t` and `t'`.
pub tools_call : World → Handler → ℕ → ℕ → Caller → Request → Handler × Response
unfolding call_decoded
tools_call w h t t' c req =
    let (q, within) = enforcer_allow h.quota t t' c.org c.user in
    let h' = record h { quota = q } in
    if within
    then call_decoded w h' c req (w.decode_params req.params)
    else (h', new_error req.id code_rate_limited (lit "rate limit exceeded"))

pub data Method : Type 0 where
  initialize ping initialized tools_list tools_call_method other : Method

pub method_of : Text → Method
method_of m =
    if m == lit "initialize"
    then initialize
    else if m == lit "ping"
    then ping
    else if m == lit "notifications/initialized"
    then initialized
    else if m == lit "tools/list"
    then tools_list
    else if m == lit "tools/call"
    then tools_call_method
    else other

abbrev pub protocol_version : Text
protocol_version = lit "2025-03-26"

abbrev pub server_name : Text
server_name = lit "acme-mcp-gateway"

pub run_method : World → Handler → ℕ → ℕ → Caller → Request → Method → Handler × Option Response
run_method w h t t' c req initialize =
    (h, some (new_result req.id (server_info protocol_version server_name)))
run_method w h t t' c req ping = (h, some (new_result req.id empty_object))
run_method w h t t' c req initialized = (h, none)
run_method w h t t' c req tools_list =
    let (h', res) = list_all w h c in (h', some (new_result req.id (tool_list res.tools)))
run_method w h t t' c req tools_call_method =
    let (h', resp) = tools_call w h t t' c req in (h', some resp)
run_method w h t t' c req other =
    if is_notification req
    then (h, none)
    else (h, some (new_error req.id code_method_not_found (lit "method not found: " ++ req.method)))

pub version_ok : Request → Bool
version_ok req = req.jsonrpc == lit "2.0" || req.jsonrpc == []

pub dispatch : World → Handler → ℕ → ℕ → Option Principal → Request → Handler × Option Response
unfolding run_method version_ok
dispatch w h t t' p req =
    if version_ok req
    then run_method w h t t' (caller_of p) req (method_of req.method)
    else (h, some (new_error req.id code_invalid_request (lit "unsupported jsonrpc version")))
