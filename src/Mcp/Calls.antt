-- ===== src/Mcp/Calls.antt =====
-- handler.go: what a request makes the gateway pass on to downstream servers.
use mcp_gateway_w.Prelude.{
  ℕ, ◌≡◌, refl, inl, inr, ◌⊎◌, true, [], ◌∷◌, Option, none, some, Text, text_beq, arith, Bool-cases,
}
use mcp_gateway_w.Aggregate.{cut}
use mcp_gateway_w.Quota.{enforcer_allow}
use mcp_gateway_w.Downstream.{
  Catalog, registry_for, can_access, Answer, instance_of, not_found, provider_error,
}
use mcp_gateway_w.Mcp.{
  Request, Handler, Caller, Call, World, Principal, caller_of, resolve, deny, call_server,
  call_named, call_decoded, tools_call, list_all, Method, tools_call_method, other, method_of,
  run_method, version_ok, dispatch,
}

-- A call that the request asks for, on an instance of a server of the caller's own organization
-- that the caller's roles allow.
pub record IsAuthorized (w : World) (catalog : Catalog) (c : Caller) (req : Request) (call : Call)
    : Type 0 where
  pub name : Text
  pub slug : Text
  pub decoded : w.decode_params req.params ≡ some (name, call.arguments)
  pub named : cut name ≡ some (slug, call.tool)
  pub allowed : can_access (registry_for catalog c.org) slug c.roles ≡ true
  pub resolved : (resolve w (registry_for catalog c.org) slug c.user).1 ≡ instance_of call.inst

abbrev pub CallsOnly : World → Handler → Caller → Request → Handler → Type 0
CallsOnly w h c req h' =
    (h'.calls ≡ h.calls)
    ⊎ ((call : Call) × IsAuthorized w h.catalog c req call × (h'.calls ≡ call ∷ h.calls))

module _ (w : World) (h : Handler) (c : Caller) (req : Request) where
  deny-calls : (name : Text) → (deny h c name).calls ≡ h.calls
  unfolding deny
  deny-calls name = ground arith

  call_server-CallsOnly :
      (name slug tool args : Text) (a : Answer)
      → w.decode_params req.params ≡ some (name, args)
      → cut name ≡ some (slug, tool)
      → can_access (registry_for h.catalog c.org) slug c.roles ≡ true
      → (resolve w (registry_for h.catalog c.org) slug c.user).1 ≡ a
      → CallsOnly w h c req (call_server w h c req slug tool args).0
  unfolding call_server
  call_server-CallsOnly name slug tool args not_found d n a r = inl (rw (r, call_server) refl)
  call_server-CallsOnly name slug tool args provider_error d n a r = inl (rw (r, call_server) refl)
  call_server-CallsOnly name slug tool args (instance_of i) d n a r = inr (
    record { inst = i; tool = tool; arguments = args },
    record { name = name; slug = slug; decoded = d; named = n; allowed = a; resolved = r },
    rw (r, call_server) refl,
  )

  call_named-CallsOnly :
      (name args : Text) (o : Option (Text × Text))
      → w.decode_params req.params ≡ some (name, args)
      → cut name ≡ o
      → CallsOnly w h c req (call_named w h c req name args).0
  unfolding call_named
  call_named-CallsOnly name args none d n = inl (rw (n, call_named) (deny-calls name))
  call_named-CallsOnly name args (some (slug, tool)) d n =
      elim (Bool-cases (can_access (registry_for h.catalog c.org) slug c.roles)) [
        | inr denied ↦ inl (rw (n, denied, call_named) (deny-calls name))
        | inl allowed ↦
            rw (n, allowed, call_named)
              (call_server-CallsOnly name slug tool args _ d n allowed refl)
      ]

  call_decoded-CallsOnly :
      (o : Option (Text × Text))
      → w.decode_params req.params ≡ o
      → CallsOnly w h c req (call_decoded w h c req o).0
  unfolding call_decoded
  call_decoded-CallsOnly none d = inl refl
  call_decoded-CallsOnly (some (name, args)) d = elim (Bool-cases (text_beq name [])) [
    | inl empty ↦ inl (rw (empty, call_decoded) refl)
    | inr given ↦ rw (given, call_decoded) (call_named-CallsOnly name args _ d refl)
  ]

tools_call-CallsOnly :
    (w : World) (h : Handler) (t t' : ℕ) (c : Caller) (req : Request)
    → CallsOnly w h c req (tools_call w h t t' c req).0
unfolding tools_call
tools_call-CallsOnly w h t t' c req =
    elim (Bool-cases (enforcer_allow h.quota t t' c.org c.user).1) [
      | inr over ↦ inl (rw (over, tools_call) refl)
      | inl within ↦
          rw (within, tools_call)
            (call_decoded-CallsOnly w
              (record h { quota = (enforcer_allow h.quota t t' c.org c.user).0 }) c req _ refl)
    ]

run_method-CallsOnly :
    (w : World) (h : Handler) (t t' : ℕ) (c : Caller) (req : Request) (m : Method)
    → CallsOnly w h c req (run_method w h t t' c req m).0
unfolding run_method list_all
run_method-CallsOnly w h t t' c req tools_call_method = tools_call-CallsOnly w h t t' c req
run_method-CallsOnly w h t t' c req other = inl (ground arith)
run_method-CallsOnly w h t t' c req m = inl refl

-- A request passes on at most one tool call, and only to an instance of a server of the principal's
-- own organization which the principal's roles allow, under the tool's original name.
pub dispatch-CallsOnly :
    (w : World) (h : Handler) (t t' : ℕ) (p : Option Principal) (req : Request)
    → CallsOnly w h (caller_of p) req (dispatch w h t t' p req).0
unfolding dispatch
dispatch-CallsOnly w h t t' p req = elim (Bool-cases (version_ok req)) [
  | inr bad ↦ inl (rw (bad, dispatch) refl)
  | inl good ↦
      rw (good, dispatch) (run_method-CallsOnly w h t t' (caller_of p) req (method_of req.method))
]
