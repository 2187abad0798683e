-- ===== src/Mcp/Hidden.antt =====
-- handler.go: a server that the caller may not use is as good as none.
use mcp_gateway_w.Prelude.{
  ℕ, ◌≡◌, ◌≢◌, refl, sym, ap, subst, ◌∙◌, inl, inr, false, List, [], ◌∷◌, Option, none, some, Text,
  text_beq, text_eq_iff, eq_refl, arith, Bool-cases, Option-cases,
}
use mcp_gateway_w.Prelude.Dict.{insert, lookup-insert}
use mcp_gateway_w.Aggregate.{ServerTools, cut, aggregate}
use mcp_gateway_w.Quota.{enforcer_allow}
use mcp_gateway_w.Downstream.{
  Registry, registry_for, new_registry, run, Op, can_access, visible_slugs, remove, get_for_user,
  find_for_user, Answer, instance_of, not_found, provider_error,
}
use mcp_gateway_w.Downstream.Access.{
  IsOrdered, occurrences, visible-IsOrdered, run-IsOrdered, new_registry-IsOrdered,
}
use mcp_gateway_w.Downstream.Removed.{
  IsSameBut, remove-IsSameBut, remove-can_access, IsSameBut-can_access, visible_slugs-removed,
  find-same, get_for_user-same,
}
use mcp_gateway_w.Mcp.{
  Request, Handler, Caller, World, Principal, caller_of, provider_answer, resolve, collect,
  list_all, deny, call_server, call_named, call_decoded, tools_call, Method, tools_list,
  tools_call_method, other, method_of, run_method, version_ok, dispatch,
}

module _ (w : World) (x user : Text) where
  resolve-same :
      (r r' : Registry) (s : Text)
      → IsSameBut x r r'
      → s ≢ x
      → ((resolve w r' s user).1 ≡ (resolve w r s user).1)
        × IsSameBut x (resolve w r s user).0 (resolve w r' s user).0
  unfolding resolve
  resolve-same r r' s h n =
      let b = provider_answer w user (find_for_user r s user) in
      subst
        (λ f.
          ((get_for_user r' s user (provider_answer w user f)).1 ≡ (get_for_user r s user b).1)
          × IsSameBut x (get_for_user r s user b).0
              (get_for_user r' s user (provider_answer w user f)).0)
        (sym (find-same x r r' s user h n)) (get_for_user-same x r r' s user b h n)

  collect_step :
      (r r' : Registry) (slug : Text) (slugs : List Text) (a : Answer)
      → (resolve w r slug user).1 ≡ a
      → (resolve w r' slug user).1 ≡ a
      → (collect w (resolve w r' slug user).0 user slugs).1
        ≡ (collect w (resolve w r slug user).0 user slugs).1
      → (collect w r' user (slug ∷ slugs)).1 ≡ (collect w r user (slug ∷ slugs)).1
  unfolding collect
  collect_step r r' slug slugs not_found e e' ih = rw (e, e', collect) ih
  collect_step r r' slug slugs provider_error e e' ih = rw (e, e', collect) ih
  collect_step r r' slug slugs (instance_of i) e e' ih = elim (Option-cases (w.list_tools i)) [
    | inl fails ↦ rw (e, e', fails, collect) ih
    | inr (tools, lists) ↦
        rw (e, e', lists, collect)
          (ap (λ (l : List ServerTools). record { slug = slug; tools = tools } ∷ l) ih)
  ]

  -- Slugs that are not `x` offer the same tools.
  collect-same :
      (r r' : Registry) (slugs : List Text)
      → IsSameBut x r r'
      → occurrences x slugs ≡ 0
      → (collect w r' user slugs).1 ≡ (collect w r user slugs).1
  unfolding collect occurrences
  collect-same r r' [] h o = refl
  collect-same r r' (slug ∷ slugs) h o =
      let n : slug ≢ x = λ e. absurd (ground (arith, o, e, text_eq_iff slug x)) in
      let (a, k) = resolve-same r r' slug h n in
      collect_step r r' slug slugs _ refl a (
        collect-same (resolve w r slug user).0 (resolve w r' slug user).0 slugs k
          (ground (arith, o)))

-- The same reply, and the same calls passed on.
abbrev pub SameAnswer {ℓ} : {A : Type ℓ} → Handler × A → Handler × A → Type ℓ
SameAnswer r q = (r.1 ≡ q.1) × (r.0.calls ≡ q.0.calls)

module _ (w : World) (c : Caller) (x : Text) where
  -- The second handler is the first, without the server `x` in the caller's organization; its caller
  -- may not use that server.
  record Hides (h h' : Handler) : Type 0 where
    quota : h'.quota ≡ h.quota
    calls : h'.calls ≡ h.calls
    same : IsSameBut x (registry_for h.catalog c.org) (registry_for h'.catalog c.org)
    seen :
        visible_slugs (registry_for h'.catalog c.org) c.roles
        ≡ visible_slugs (registry_for h.catalog c.org) c.roles
    unseen : occurrences x (visible_slugs (registry_for h.catalog c.org) c.roles) ≡ 0
    denied : can_access (registry_for h.catalog c.org) x c.roles ≡ false
    denied' : can_access (registry_for h'.catalog c.org) x c.roles ≡ false

  deny-calls : (h : Handler) (name : Text) → (deny h c name).calls ≡ h.calls
  unfolding deny
  deny-calls h name = ground arith

  list_all-same : (h h' : Handler) → Hides h h' → SameAnswer (list_all w h' c) (list_all w h c)
  unfolding list_all
  list_all-same h h' k = (
    ap aggregate (
        ap (λ (l : List Text). (collect w (registry_for h'.catalog c.org) c.user l).1) k.seen
        ∙ collect-same w x c.user (registry_for h.catalog c.org) (registry_for h'.catalog c.org) _
            k.same k.unseen),
    k.calls,
  )

  call_server-cases :
      (h h' : Handler) (req : Request) (slug tool args : Text) (a : Answer)
      → h'.calls ≡ h.calls
      → (resolve w (registry_for h.catalog c.org) slug c.user).1 ≡ a
      → (resolve w (registry_for h'.catalog c.org) slug c.user).1 ≡ a
      → SameAnswer (call_server w h' c req slug tool args) (call_server w h c req slug tool args)
  unfolding call_server
  call_server-cases h h' req slug tool args not_found k e e' = rw (e, e', call_server) (refl, k)
  call_server-cases h h' req slug tool args provider_error k e e' =
      rw (e, e', call_server) (refl, k)
  call_server-cases h h' req slug tool args (instance_of i) k e e' =
      rw (e, e', call_server)
        (refl, ap (λ l. record { inst = i; tool = tool; arguments = args } ∷ l) k)

  call_named-same :
      (h h' : Handler) (req : Request) (name args : Text)
      → Hides h h'
      → SameAnswer (call_named w h' c req name args) (call_named w h c req name args)
  unfolding call_named
  call_named-same h h' req name args k =
      let reg = registry_for h.catalog c.org in
      let reg' = registry_for h'.catalog c.org in
      let denials = deny-calls h' name ∙ (k.calls ∙ sym (deny-calls h name)) in
      elim (Option-cases (cut name)) [
        | inl no_cut ↦ rw (no_cut, call_named) (refl, denials)
        | inr ((slug, tool), cut_at) ↦ elim (Bool-cases (text_beq slug x)) [
          | inl y ↦
              let e : slug ≡ x = (text_eq_iff slug x).0 y in
              let d = subst (λ z. can_access reg z c.roles ≡ false) (sym e) k.denied in
              let d' = subst (λ z. can_access reg' z c.roles ≡ false) (sym e) k.denied' in
              rw (cut_at, d, d', call_named) (refl, denials)
          | inr y ↦
              let n : slug ≢ x = λ e. absurd (ground (arith, y, e, text_eq_iff slug x)) in
              let p = IsSameBut-can_access x reg reg' slug c.roles k.same n in
              let (q, _) = resolve-same w x c.user reg reg' slug k.same n in
              elim (Bool-cases (can_access reg slug c.roles)) [
                | inr no_access ↦
                    let no_access' = p ∙ no_access in
                    rw (cut_at, no_access, no_access', call_named) (refl, denials)
                | inl access ↦
                    let access' = p ∙ access in
                    rw (cut_at, access, access', call_named)
                      (call_server-cases h h' req slug tool args _ k.calls refl q)
              ]
        ]
      ]

  call_decoded-same :
      (h h' : Handler) (req : Request) (o : Option (Text × Text))
      → Hides h h'
      → SameAnswer (call_decoded w h' c req o) (call_decoded w h c req o)
  unfolding call_decoded
  call_decoded-same h h' req none k = (refl, k.calls)
  call_decoded-same h h' req (some (name, args)) k = elim (Bool-cases (text_beq name [])) [
    | inl empty ↦ rw (empty, call_decoded) (refl, k.calls)
    | inr given ↦ rw (given, call_decoded) (call_named-same h h' req name args k)
  ]

  tools_call-same :
      (h h' : Handler) (t t' : ℕ) (req : Request)
      → Hides h h'
      → SameAnswer (tools_call w h' t t' c req) (tools_call w h t t' c req)
  unfolding tools_call
  tools_call-same h h' t t' req k =
      let q = enforcer_allow h.quota t t' c.org c.user in
      let g : Handler = record h { quota = q.0 } in
      let g' : Handler = record h' { quota = q.0 } in
      let kept : Hides g g' = record {
        quota = refl;
        calls = k.calls;
        same = k.same;
        seen = k.seen;
        unseen = k.unseen;
        denied = k.denied;
        denied' = k.denied';
      } in
      elim (Bool-cases q.1) [
        | inr over ↦ rw (k.quota, over, tools_call) (refl, k.calls)
        | inl within ↦
            rw (k.quota, within, tools_call)
              (call_decoded-same g g' req (w.decode_params req.params) kept)
      ]

  run_method-same :
      (h h' : Handler) (t t' : ℕ) (req : Request) (m : Method)
      → Hides h h'
      → SameAnswer (run_method w h' t t' c req m) (run_method w h t t' c req m)
  unfolding run_method
  run_method-same h h' t t' req tools_call_method k =
      let (a, b) = tools_call-same h h' t t' req k in (ap some a, b)
  run_method-same h h' t t' req tools_list k = let (a, b) = list_all-same h h' k in (cc a, b)
  run_method-same h h' t t' req other k = ground (arith, k.calls)
  run_method-same h h' t t' req m k = (refl, k.calls)

-- The gateway without one server of an organization.
abbrev pub without : Handler → Text → Text → Handler
without h org x = record h {
  catalog = insert org (remove (registry_for h.catalog org) x).0 h.catalog;
}

registry-without :
    (h : Handler) (org x : Text)
    → registry_for (without h org x).catalog org ≡ (remove (registry_for h.catalog org) x).0
unfolding registry_for
registry-without h org x =
    ground (
      arith,
      eq_refl org,
      lookup-insert org org (remove (registry_for h.catalog org) x).0 h.catalog,
    )

-- A principal cannot tell a server that it may not use from one that does not exist: whatever it asks,
-- it gets the reply, and the gateway passes on the calls, as if the server had been removed. The
-- organization's registry was made by the registry's operations.
pub dispatch-without :
    (w : World) (h : Handler) (t t' : ℕ) (p : Option Principal) (req : Request) (x : Text)
    (os : List Op)
    → registry_for h.catalog (caller_of p).org ≡ run new_registry os
    → can_access (registry_for h.catalog (caller_of p).org) x (caller_of p).roles ≡ false
    → SameAnswer (dispatch w (without h (caller_of p).org x) t t' p req) (dispatch w h t t' p req)
unfolding dispatch
dispatch-without w h t t' p req x os made denied =
    let c = caller_of p in
    let reg = registry_for h.catalog c.org in
    let h' = without h c.org x in
    let gone = registry-without h c.org x in
    let ordered : IsOrdered reg =
      subst IsOrdered (sym made) (run-IsOrdered new_registry os new_registry-IsOrdered) in
    let k : Hides w c x h h' = record {
      quota = refl;
      calls = refl;
      same = subst (IsSameBut x reg) (sym gone) (remove-IsSameBut reg x);
      seen =
          ap (λ (r : Registry). visible_slugs r c.roles) gone
          ∙ visible_slugs-removed reg x c.roles ordered denied;
      unseen = ground (arith, denied, visible-IsOrdered reg c.roles x ordered);
      denied = denied;
      denied' =
          ap (λ (r : Registry). can_access r x c.roles) gone ∙ remove-can_access reg x c.roles;
    } in
    elim (Bool-cases (version_ok req)) [
      | inr bad ↦ rw (bad, dispatch) (refl, refl)
      | inl good ↦
          rw (good, dispatch) (run_method-same w c x h h' t t' req (method_of req.method) k)
    ]
