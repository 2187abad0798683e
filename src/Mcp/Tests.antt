-- ===== src/Mcp/Tests.antt =====
-- handler.go: runs on small inputs, and the theorems at a concrete gateway.
use mcp_gateway_w.Prelude.{
  ◌≡◌, refl, true, List, [], ◌∷◌, Option, none, some, Text, lit, text_beq, arith, pos,
}
use mcp_gateway_w.Prelude.Dict.{lookup, insert}
use mcp_gateway_w.Aggregate.{Tool, cut, aggregate}
use mcp_gateway_w.Aggregate.Surface.{listed}
use mcp_gateway_w.Quota.{Enforcer, enforcer_allow, allow}
use mcp_gateway_w.Downstream.{
  new_registry, registry_for, can_access, visible_slugs, find_for_user, get_for_user, adds_scoped,
  Op, run, step, add_scoped,
}
use mcp_gateway_w.Mcp.{
  Request, Handler, World, Principal, returned, caller_of, resolve, collect, list_all, unknown_tool,
  tools_call, new_result, tool_list, raw, method_of, version_ok, run_method, dispatch,
}
use mcp_gateway_w.Mcp.Calls.{CallsOnly, dispatch-CallsOnly}
use mcp_gateway_w.Mcp.Isolation.{registry_for-dispatch}
use mcp_gateway_w.Mcp.Hidden.{SameAnswer, without, dispatch-without}
use mcp_gateway_w.Mcp.Listing.{IsPassed, call_named-listed}

runs : Unit {0}
unfolding dispatch run_method list_all tools_call resolve collect unknown_tool method_of version_ok
    caller_of aggregate cut enforcer_allow allow new_registry registry_for can_access visible_slugs
    find_for_user get_for_user run step add_scoped lookup insert text_beq
runs = tt

abbrev acme : Text
acme = lit "acme"

abbrev search : Tool
search = record { name = lit "search"; description = []; input_schema = [] }

-- Parameters decode to their own text as the name; each instance lists one tool and echoes.
abbrev world : World
world = record {
  decode_params = λ params. some (params, lit "{}");
  list_tools = λ i. some (search ∷ []);
  call_tool = λ i tool args. returned tool;
  build = λ p user. none;
}

abbrev ops : List Op
ops = adds_scoped (lit "gh") 7 [] ∷ adds_scoped (lit "hr") 8 (lit "boss" ∷ []) ∷ []

abbrev gateway : Option Enforcer → Handler
gateway q = record {
  catalog = (acme, run new_registry ops) ∷ [];
  quota = q;
  records_denials = true;
  denials = [];
  calls = [];
}

abbrev exhausted : Option Enforcer
exhausted = some (record {
  org = record {
    limit = pos 1;
    window = pos 10;
    buckets = (lit "org:acme", record { start = 0; count = 1 }) ∷ [];
  };
  user = record { limit = pos 1; window = pos 10; buckets = [] };
})

abbrev bob : Principal
bob = record { org_id = acme; user_id = lit "bob"; username = []; roles = [] }

abbrev request : Text → Text → Request
request method params = record {
  jsonrpc = lit "2.0";
  id = lit "1";
  method = method;
  params = params;
}

abbrev call_of : Text → Request
call_of name = request (lit "tools/call") name

routed :
    (dispatch world (gateway none) 1 1 (some bob) (call_of (lit "gh__search"))).1
    ≡ some (new_result (lit "1") (raw (lit "search")))
unfolding runs
routed = refl

hidden :
    (dispatch world (gateway none) 1 1 (some bob) (call_of (lit "hr__search"))).1
    ≡ some (unknown_tool (call_of (lit "hr__search")) (lit "hr__search"))
unfolding runs
hidden = refl

listed_tools :
    (dispatch world (gateway none) 1 1 (some bob) (request (lit "tools/list") [])).1
    ≡ some (new_result (lit "1") (tool_list (record search { name = lit "gh__search" } ∷ [])))
unfolding runs
listed_tools = refl

dispatch-CallsOnly_example :
    CallsOnly world
      (gateway none)
      (caller_of (some bob))
      (call_of (lit "gh__search"))
      (dispatch world (gateway none) 1 1 (some bob) (call_of (lit "gh__search"))).0
dispatch-CallsOnly_example =
    dispatch-CallsOnly world (gateway none) 1 1 (some bob) (call_of (lit "gh__search"))

registry_for-dispatch_example :
    registry_for
      (dispatch world (gateway none) 1 1 (some bob) (call_of (lit "gh__search"))).0.catalog
      (lit "globex")
    ≡ new_registry
unfolding runs
registry_for-dispatch_example =
    registry_for-dispatch world (gateway none) 1 1 (some bob) (call_of (lit "gh__search"))
      (lit "globex") (λ e. cc)

-- Bob may not use "hr".
dispatch-without_example :
    SameAnswer
      (dispatch world
        (without (gateway none) acme (lit "hr"))
        1
        1
        (some bob)
        (call_of (lit "hr__search")))
      (dispatch world (gateway none) 1 1 (some bob) (call_of (lit "hr__search")))
unfolding runs
dispatch-without_example =
    dispatch-without world (gateway none) 1 1 (some bob) (call_of (lit "hr__search")) (lit "hr") ops
      refl refl

abbrev silent_ping : Request
silent_ping = record { jsonrpc = lit "2.0"; id = []; method = lit "ping"; params = [] }

-- The listing of the first server is followed by a call of its tool.
call_named-listed_example :
    IsPassed world
      (gateway none)
      (list_all world (gateway none) (caller_of (some bob))).0
      (caller_of (some bob))
      (call_of (lit "gh__search"))
      (lit "gh__search")
      (lit "{}")
unfolding runs listed
call_named-listed_example =
    call_named-listed world (gateway none) (caller_of (some bob)) (call_of (lit "gh__search"))
      (lit "gh__search") (lit "{}") ops refl (omega arith, tt) (omega arith)
