-- ===== src/Mcp/Isolation.antt =====
-- handler.go: a request changes only the registry of the caller's own organization.
use mcp_gateway_w.Prelude.{
  ℕ, ◌≡◌, ◌≢◌, refl, inl, inr, ◌⊎◌, ap, ◌∙◌, [], Option, none, some, Text, text_beq, text_eq_iff,
  arith, Bool-cases,
}
use mcp_gateway_w.Prelude.Dict.{insert, lookup-insert}
use mcp_gateway_w.Aggregate.{cut}
use mcp_gateway_w.Quota.{enforcer_allow}
use mcp_gateway_w.Downstream.{
  Registry, Catalog, registry_for, can_access, Answer, instance_of, not_found, provider_error,
}
use mcp_gateway_w.Mcp.{
  Request, Handler, Caller, World, Principal, caller_of, resolve, deny, call_server, call_named,
  call_decoded, tools_call, list_all, Method, tools_list, tools_call_method, other, method_of,
  run_method, version_ok, dispatch,
}

-- The catalog is as before, or one registry of it was written.
abbrev Writes : Text → Handler → Handler → Type 0
Writes org h h' =
    (h'.catalog ≡ h.catalog) ⊎ ((r : Registry) × (h'.catalog ≡ insert org r h.catalog))

module _ (w : World) (h : Handler) (c : Caller) (req : Request) where
  deny-catalog : (name : Text) → (deny h c name).catalog ≡ h.catalog
  unfolding deny
  deny-catalog name = ground arith

  call_server-Writes :
      (slug tool args : Text) (a : Answer)
      → (resolve w (registry_for h.catalog c.org) slug c.user).1 ≡ a
      → Writes c.org h (call_server w h c req slug tool args).0
  unfolding call_server
  call_server-Writes slug tool args not_found r =
      inr ((resolve w (registry_for h.catalog c.org) slug c.user).0, rw (r, call_server) refl)
  call_server-Writes slug tool args provider_error r =
      inr ((resolve w (registry_for h.catalog c.org) slug c.user).0, rw (r, call_server) refl)
  call_server-Writes slug tool args (instance_of i) r =
      inr ((resolve w (registry_for h.catalog c.org) slug c.user).0, rw (r, call_server) refl)

  call_named-Writes :
      (name args : Text) (o : Option (Text × Text))
      → cut name ≡ o
      → Writes c.org h (call_named w h c req name args).0
  unfolding call_named
  call_named-Writes name args none n = inl (rw (n, call_named) (deny-catalog name))
  call_named-Writes name args (some (slug, tool)) n =
      elim (Bool-cases (can_access (registry_for h.catalog c.org) slug c.roles)) [
        | inr denied ↦ inl (rw (n, denied, call_named) (deny-catalog name))
        | inl allowed ↦ rw (n, allowed, call_named) (call_server-Writes slug tool args _ refl)
      ]

  call_decoded-Writes : (o : Option (Text × Text)) → Writes c.org h (call_decoded w h c req o).0
  unfolding call_decoded
  call_decoded-Writes none = inl refl
  call_decoded-Writes (some (name, args)) = elim (Bool-cases (text_beq name [])) [
    | inl empty ↦ inl (rw (empty, call_decoded) refl)
    | inr given ↦ rw (given, call_decoded) (call_named-Writes name args _ refl)
  ]

tools_call-Writes :
    (w : World) (h : Handler) (t t' : ℕ) (c : Caller) (req : Request)
    → Writes c.org h (tools_call w h t t' c req).0
unfolding tools_call
tools_call-Writes w h t t' c req = elim (Bool-cases (enforcer_allow h.quota t t' c.org c.user).1) [
  | inr over ↦ inl (rw (over, tools_call) refl)
  | inl within ↦
      rw (within, tools_call) (call_decoded-Writes w _ c req (w.decode_params req.params))
]

run_method-Writes :
    (w : World) (h : Handler) (t t' : ℕ) (c : Caller) (req : Request) (m : Method)
    → Writes c.org h (run_method w h t t' c req m).0
unfolding run_method list_all
run_method-Writes w h t t' c req tools_call_method = tools_call-Writes w h t t' c req
run_method-Writes w h t t' c req tools_list = inr (_, refl)
run_method-Writes w h t t' c req other = inl (ground arith)
run_method-Writes w h t t' c req m = inl refl

dispatch-Writes :
    (w : World) (h : Handler) (t t' : ℕ) (p : Option Principal) (req : Request)
    → Writes (caller_of p).org h (dispatch w h t t' p req).0
unfolding dispatch
dispatch-Writes w h t t' p req = elim (Bool-cases (version_ok req)) [
  | inr bad ↦ inl (rw (bad, dispatch) refl)
  | inl good ↦
      rw (good, dispatch) (run_method-Writes w h t t' (caller_of p) req (method_of req.method))
]

insert-elsewhere :
    (org : Text) (cat : Catalog) (r : Registry) (o : Text)
    → o ≢ org
    → registry_for (insert org r cat) o ≡ registry_for cat o
unfolding registry_for
insert-elsewhere org cat r o d = ground (arith, text_eq_iff org o, lookup-insert org o r cat)

-- Whatever a principal asks for, every other organization has the servers, with their cached
-- instances and roles, that it had before.
pub registry_for-dispatch :
    (w : World) (h : Handler) (t t' : ℕ) (p : Option Principal) (req : Request) (o : Text)
    → o ≢ (caller_of p).org
    → registry_for (dispatch w h t t' p req).0.catalog o ≡ registry_for h.catalog o
registry_for-dispatch w h t t' p req o d = elim (dispatch-Writes w h t t' p req) [
  | inl same ↦ ap (λ c. registry_for c o) same
  | inr (r, written) ↦
      ap (λ c. registry_for c o) written ∙ insert-elsewhere (caller_of p).org h.catalog r o d
]
