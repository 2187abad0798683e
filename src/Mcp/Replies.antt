-- ===== src/Mcp/Replies.antt =====
-- handler.go: what the gateway answers.
use mcp_gateway_w.Prelude.{
  ℕ, ◌≡◌, ◌↔◌, refl, inl, inr, ◌⊎◌, true, false, [], Option, none, some, lit, text_eq_iff, arith,
  Bool-cases,
}
use mcp_gateway_w.Quota.{enforcer_allow}
use mcp_gateway_w.Mcp.{
  Request, Response, Handler, Caller, World, Principal, caller_of, unknown_tool, called_response,
  call_server, call_named, call_decoded, tools_call, list_all, new_error, code_rate_limited, Method,
  initialized, tools_call_method, other, method_of, run_method, version_ok, is_notification,
  dispatch,
}

-- A caller over its quota gets the rate-limit error, before anything else is looked at.
tools_call-limited :
    (w : World) (h : Handler) (t t' : ℕ) (c : Caller) (req : Request)
    → (enforcer_allow h.quota t t' c.org c.user).1 ≡ false
    → ((tools_call w h t t' c req).1
        ≡ new_error req.id code_rate_limited (lit "rate limit exceeded"))
      × ((tools_call w h t t' c req).0
          ≡ record h { quota = (enforcer_allow h.quota t t' c.org c.user).0 })
unfolding tools_call
tools_call-limited w h t t' c req over = rw (over, tools_call) (refl, refl)

-- Which method names are not one of the five.
run_method-none :
    (w : World) (h : Handler) (t t' : ℕ) (c : Caller) (req : Request) (m : Method)
    → ((run_method w h t t' c req m).1 ≡ none) ↔ ((m ≡ initialized) ⊎ ((m ≡ other) × (req.id ≡ [])))
unfolding run_method is_notification
run_method-none w h t t' c req initialized = ground arith
run_method-none w h t t' c req other = ground (arith, text_eq_iff req.id [])
run_method-none w h t t' c req m = ground arith

-- No reply is sent exactly for "notifications/initialized" and for a request that has neither an id
-- nor a known method, under a supported version. A known method is answered also without an id.
dispatch-none_iff :
    (w : World) (h : Handler) (t t' : ℕ) (p : Option Principal) (req : Request)
    → ((dispatch w h t t' p req).1 ≡ none) ↔ (
        (version_ok req ≡ true)
        × ((method_of req.method ≡ initialized) ⊎ ((method_of req.method ≡ other) × (req.id ≡ []))))
unfolding dispatch
dispatch-none_iff w h t t' p req =
    ground (arith, run_method-none w h t t' (caller_of p) req (method_of req.method))

-- The reply's id.
abbrev pub Echoes : Request → Option Response → Type 0
Echoes req none = Unit
Echoes req (some r) = r.id ≡ req.id

tools_call-id :
    (w : World) (h : Handler) (t t' : ℕ) (c : Caller) (req : Request)
    → (tools_call w h t t' c req).1.id ≡ req.id
unfolding tools_call call_decoded call_named call_server called_response unknown_tool
tools_call-id w h t t' c req = ground arith

run_method-Echoes :
    (w : World) (h : Handler) (t t' : ℕ) (c : Caller) (req : Request) (m : Method)
    → Echoes req (run_method w h t t' c req m).1
unfolding run_method list_all
run_method-Echoes w h t t' c req tools_call_method = tools_call-id w h t t' c req
run_method-Echoes w h t t' c req other = elim (Bool-cases (is_notification req)) [
  | inl silent ↦ rw silent tt
  | inr asked ↦ rw asked refl
]
run_method-Echoes w h t t' c req initialized = tt
run_method-Echoes w h t t' c req m = refl

-- Every reply carries the id of its request, whatever happens on the way.
dispatch-Echoes :
    (w : World) (h : Handler) (t t' : ℕ) (p : Option Principal) (req : Request)
    → Echoes req (dispatch w h t t' p req).1
unfolding dispatch
dispatch-Echoes w h t t' p req = elim (Bool-cases (version_ok req)) [
  | inr bad ↦ rw (bad, dispatch) refl
  | inl good ↦
      rw (good, dispatch) (run_method-Echoes w h t t' (caller_of p) req (method_of req.method))
]
