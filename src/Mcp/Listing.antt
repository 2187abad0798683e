-- ===== src/Mcp/Listing.antt =====
-- handler.go: the tools that `tools/list` shows, and what a call of one of them does.
use mcp_gateway_w.Prelude.{
  ◌≡◌, ◌<◌, ℕ, refl, sym, ap, subst, ◌∙◌, inl, inr, true, List, [], ◌∷◌, Option, none, some, Text,
  text_beq, text_eq_iff, eq_refl, arith, Bool-cases, All,
}
use mcp_gateway_w.Prelude.Dict.{lookup-insert}
use mcp_gateway_w.Aggregate.{Tool, Route, full_name}
use mcp_gateway_w.Aggregate.Names.{IsRoutable, cut-full_name_iff}
use mcp_gateway_w.Aggregate.Surface.{first_offer, as_count, listed, listed-aggregate}
use mcp_gateway_w.Downstream.{
  Registry, registry_for, new_registry, run, Op, can_access, visible_slugs, find_for_user,
  get_for_user, ready,
}
use mcp_gateway_w.Downstream.Access.{
  IsOrdered, occurrences, visible-IsOrdered, run-IsOrdered, new_registry-IsOrdered,
}
use mcp_gateway_w.Downstream.Kept.{IsMapped, run_new-IsMapped}
use mcp_gateway_w.Mcp.{
  Request, Handler, Caller, World, resolve, collect, list_all, called_response, call_server,
  call_named,
}
use mcp_gateway_w.Mcp.Collected.{Offers, collect-can_access, collect_sound}

All-occurs :
    (slugs : List Text) (s : Text) → All IsRoutable slugs → 0 < occurrences s slugs → IsRoutable s
unfolding occurrences
All-occurs [] s h o = absurd (omega arith)
All-occurs (x ∷ xs) s h o = elim (Bool-cases (text_beq x s)) [
  | inl y ↦ subst IsRoutable ((text_eq_iff x s).0 y) h.0
  | inr y ↦ All-occurs xs s h.1 (ground (arith, y, o))
]

-- A call for a server that is allowed and of which the user has an instance is passed on to it.
call_server-ready :
    (w : World) (h : Handler) (c : Caller) (req : Request) (slug tool args : Text) (i : ℕ)
    → find_for_user (registry_for h.catalog c.org) slug c.user ≡ ready i
    → ((call_server w h c req slug tool args).0.calls
        ≡ record { inst = i; tool = tool; arguments = args } ∷ h.calls)
      × ((call_server w h c req slug tool args).1 ≡ called_response req (w.call_tool i tool args))
unfolding call_server resolve get_for_user
call_server-ready w h c req slug tool args i q =
    rw (q, call_server, resolve, get_for_user) (refl, refl)

-- What a call of the name does: it is passed on to an instance that lists the tool, of a server that the
-- caller may use, under the tool's own name, and answered by what this instance answers.
abbrev pub IsPassed : World → Handler → Handler → Caller → Request → Text → Text → Type 0
IsPassed w h h' c req n args =
    (slug tool : Text) × (i : ℕ) × (tools : List Tool) × (full_name slug tool ≡ n)
    × (can_access (registry_for h.catalog c.org) slug c.roles ≡ true)
    × (w.list_tools i ≡ some tools)
    × Offers tool tools
    × ((call_named w h' c req n args).0.calls
        ≡ record { inst = i; tool = tool; arguments = args } ∷ h'.calls)
    × ((call_named w h' c req n args).1 ≡ called_response req (w.call_tool i tool args))

count_some : (o : Option Route) → 0 < as_count o → (route : Route) × (o ≡ some route)
count_some none h = absurd (omega arith)
count_some (some route) h = (route, refl)

registry-listed :
    (w : World) (h : Handler) (c : Caller)
    → registry_for (list_all w h c).0.catalog c.org
      ≡ (collect w
          (registry_for h.catalog c.org)
          c.user
          (visible_slugs (registry_for h.catalog c.org) c.roles)).0
unfolding registry_for list_all
registry-listed w h c = ground (
  arith,
  eq_refl c.org,
  lookup-insert c.org c.org
      (collect w (registry_for h.catalog c.org) c.user
        (visible_slugs (registry_for h.catalog c.org) c.roles)).0
      h.catalog,
)

-- After a listing, a call of any name in it is passed on to an instance that lists this tool, of a
-- server that the caller may use, under the tool's own name, and the caller gets what this instance
-- answers. The slugs that the caller sees hold no "__" and do not end in an underscore, and the
-- organization's registry was made by the registry's operations.
pub call_named-listed :
    (w : World) (h : Handler) (c : Caller) (req : Request) (n args : Text) (os : List Op)
    → registry_for h.catalog c.org ≡ run new_registry os
    → All IsRoutable (visible_slugs (registry_for h.catalog c.org) c.roles)
    → 0 < listed n (list_all w h c).1.tools
    → IsPassed w h (list_all w h c).0 c req n args
unfolding call_named list_all
call_named-listed w h c req n args os made plain shown =
    let reg : Registry = registry_for h.catalog c.org in
    let slugs = visible_slugs reg c.roles in
    let mapped : IsMapped reg = subst IsMapped (sym made) (run_new-IsMapped os) in
    let ordered : IsOrdered reg =
      subst IsOrdered (sym made) (run-IsOrdered new_registry os new_registry-IsOrdered) in
    let after = collect w reg c.user slugs in
    let (route, offered) =
      count_some (first_offer n after.1)
        (subst (λ (k : ℕ). 0 < k) (listed-aggregate n after.1) shown) in
    let (i, tools, o, f, l, t, q) = collect_sound w c.user n route reg slugs mapped offered in
    let allowed : can_access reg route.slug c.roles ≡ true =
      ground (arith, o, visible-IsOrdered reg c.roles route.slug ordered) in
    let h' = (list_all w h c).0 in
    let same = registry-listed w h c in
    let allowed' : can_access (registry_for h'.catalog c.org) route.slug c.roles ≡ true =
      ap (λ (x : Registry). can_access x route.slug c.roles) same
      ∙ (collect-can_access w c.user reg slugs route.slug c.roles mapped ∙ allowed) in
    let cut_here =
      (cut-full_name_iff route.slug route.tool).1 (All-occurs slugs route.slug plain o) in
    let passed =
      call_server-ready w h' c req route.slug route.tool args i
        (ap (λ (x : Registry). find_for_user x route.slug c.user) same ∙ q) in
    (
      route.slug,
      route.tool,
      i,
      tools,
      f,
      allowed,
      l,
      t,
      rw (← f, cut_here, allowed', call_named) passed.0,
      rw (← f, cut_here, allowed', call_named) passed.1,
    )
