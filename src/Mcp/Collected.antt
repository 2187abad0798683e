-- ===== src/Mcp/Collected.antt =====
-- handler.go: what the loop of `tools/list` leaves in the registry for the calls that follow.
use mcp_gateway_w.Prelude.{
  ◌≡◌, ◌<◌, ◌⊎◌, ℕ, refl, sym, ap, subst, ◌∙◌, inl, inr, List, [], ◌∷◌, some, Text, text_beq,
  text_eq_iff, arith, Bool-cases, Option-cases,
}
use mcp_gateway_w.Aggregate.{Tool, Route, full_name}
use mcp_gateway_w.Aggregate.Surface.{first_tool, first_offer, or_else}
use mcp_gateway_w.Downstream.{
  Registry, can_access, find_for_user, ready, Answer, instance_of, not_found, provider_error,
}
use mcp_gateway_w.Downstream.Access.{occurrences}
use mcp_gateway_w.Downstream.Kept.{
  IsMapped, get_for_user-IsMapped, get_for_user-can_access, get_for_user-ready, get_for_user-keeps,
}
use mcp_gateway_w.Mcp.{World, resolve, collect}

-- One of the tools has the name.
abbrev pub Offers : Text → List Tool → Type 0
Offers n [] = ⊥
Offers n (t ∷ ts) = (t.name ≡ n) ⊎ Offers n ts

first_tool_sound :
    (n slug : Text) (ts : List Tool) (route : Route)
    → first_tool n slug ts ≡ some route
    → (route.slug ≡ slug) × (full_name route.slug route.tool ≡ n) × Offers route.tool ts
unfolding first_tool
first_tool_sound n slug [] route e = absurd (cc)
first_tool_sound n slug (t ∷ ts) route e = elim (Bool-cases (text_beq (full_name slug t.name) n)) [
  | inl same ↦
      let q : some (record { slug = slug; tool = t.name }) ≡ some route = rw same at e in
      let made : record { slug = slug; tool = t.name } ≡ route = cc in
      (
        ap (λ (x : Route). x.slug) (sym made),
        ap (λ (x : Route). full_name x.slug x.tool) (sym made) ∙ (text_eq_iff _ _).0 same,
        inl (ap (λ (x : Route). x.tool) made),
      )
  | inr other ↦ let (a, b, c) = first_tool_sound n slug ts route (rw other at e) in (a, b, inr c)
]

module _ (w : World) (user : Text) where
  resolve-IsMapped : (r : Registry) (slug : Text) → IsMapped r → IsMapped (resolve w r slug user).0
  unfolding resolve
  resolve-IsMapped r slug h = get_for_user-IsMapped r slug user _ h

  -- The registry after the loop is that after the first slug, taken through the rest of the loop.
  collect-rest :
      (r : Registry) (slug : Text) (slugs : List Text) (a : Answer)
      → (resolve w r slug user).1 ≡ a
      → (collect w r user (slug ∷ slugs)).0 ≡ (collect w (resolve w r slug user).0 user slugs).0
  unfolding collect
  collect-rest r slug slugs not_found e = rw (e, collect) refl
  collect-rest r slug slugs provider_error e = rw (e, collect) refl
  collect-rest r slug slugs (instance_of i) e = elim (Option-cases (w.list_tools i)) [
    | inl fails ↦ rw (e, fails, collect) refl
    | inr (tools, lists) ↦ rw (e, lists, collect) refl
  ]

  pub collect-can_access :
      (r : Registry) (slugs : List Text) (s : Text) (roles : List Text)
      → IsMapped r
      → can_access (collect w r user slugs).0 s roles ≡ can_access r s roles
  unfolding collect resolve
  collect-can_access r [] s roles h = refl
  collect-can_access r (slug ∷ slugs) s roles h =
      ap (λ (x : Registry). can_access x s roles) (collect-rest r slug slugs _ refl)
      ∙ (collect-can_access (resolve w r slug user).0 slugs s roles (resolve-IsMapped r slug h)
          ∙ get_for_user-can_access r slug user _ h s roles)

  collect-keeps :
      (r : Registry) (slugs : List Text) (s : Text) (i : ℕ)
      → IsMapped r
      → find_for_user r s user ≡ ready i
      → find_for_user (collect w r user slugs).0 s user ≡ ready i
  unfolding collect resolve
  collect-keeps r [] s i h q = q
  collect-keeps r (slug ∷ slugs) s i h q =
      ap (λ (x : Registry). find_for_user x s user) (collect-rest r slug slugs _ refl)
      ∙ collect-keeps (resolve w r slug user).0 slugs s i (resolve-IsMapped r slug h)
          (get_for_user-keeps r slug user _ h s i q)

  -- A listed name is that of a tool which an instance lists, of one of the slugs that were asked; and
  -- the user has this instance from now on.
  abbrev pub Leads : Text → List Text → Registry → Route → Type 0
  Leads n slugs r route =
      (i : ℕ) × (tools : List Tool) × (0 < occurrences route.slug slugs)
      × (full_name route.slug route.tool ≡ n)
      × (w.list_tools i ≡ some tools)
      × Offers route.tool tools
      × (find_for_user r route.slug user ≡ ready i)

  Leads-later :
      (n slug : Text) (slugs : List Text) (r r' : Registry) (route : Route)
      → r' ≡ r
      → Leads n slugs r route
      → Leads n (slug ∷ slugs) r' route
  unfolding occurrences
  Leads-later n slug slugs r r' route e (i, tools, o, f, l, t, q) = (
    i,
    tools,
    ground arith,
    f,
    l,
    t,
    ap (λ (x : Registry). find_for_user x route.slug user) e ∙ q,
  )

  collect_step :
      (n : Text) (route : Route) (r : Registry) (slug : Text) (slugs : List Text) (a : Answer)
      → IsMapped r
      → (resolve w r slug user).1 ≡ a
      → (first_offer n (collect w (resolve w r slug user).0 user slugs).1 ≡ some route
          → Leads n slugs (collect w (resolve w r slug user).0 user slugs).0 route)
      → first_offer n (collect w r user (slug ∷ slugs)).1 ≡ some route
      → Leads n (slug ∷ slugs) (collect w r user (slug ∷ slugs)).0 route
  unfolding collect first_offer occurrences resolve
  collect_step n route r slug slugs not_found h a later e =
      Leads-later n slug slugs _ _ route (collect-rest r slug slugs not_found a)
        (later (rw (a, collect) at e))
  collect_step n route r slug slugs provider_error h a later e =
      Leads-later n slug slugs _ _ route (collect-rest r slug slugs provider_error a)
        (later (rw (a, collect) at e))
  collect_step n route r slug slugs (instance_of i) h a later e =
      let rest = collect-rest r slug slugs (instance_of i) a in
      elim (Option-cases (w.list_tools i)) [
        | inl fails ↦ Leads-later n slug slugs _ _ route rest (later (rw (a, fails, collect) at e))
        | inr (tools, lists) ↦
            let e' : or_else (first_tool n slug tools)
                  (first_offer n (collect w (resolve w r slug user).0 user slugs).1)
                ≡ some route =
              rw (a, lists, collect) at e in
            elim (Option-cases (first_tool n slug tools)) [
              | inl missed ↦ Leads-later n slug slugs _ _ route rest (later (rw missed at e'))
              | inr (x, hit) ↦
                  let (s, f, t) = first_tool_sound n slug tools route (hit ∙ (rw hit at e')) in
                  (
                    i,
                    tools,
                    ground (arith, s, text_eq_iff slug route.slug),
                    f,
                    lists,
                    t,
                    ap (λ (x : Registry). find_for_user x route.slug user) rest
                        ∙ collect-keeps (resolve w r slug user).0 slugs route.slug i
                            (resolve-IsMapped r slug h)
                            (subst (λ z. find_for_user (resolve w r slug user).0 z user ≡ ready i)
                              (sym s) (get_for_user-ready r slug user _ h i a)),
                  )
            ]
      ]

  pub collect_sound :
      (n : Text) (route : Route) (r : Registry) (slugs : List Text)
      → IsMapped r
      → first_offer n (collect w r user slugs).1 ≡ some route
      → Leads n slugs (collect w r user slugs).0 route
  unfolding collect first_offer
  collect_sound n route r [] h e = absurd (cc)
  collect_sound n route r (slug ∷ slugs) h e =
      collect_step n route r slug slugs (resolve w r slug user).1 h refl
        (collect_sound n route (resolve w r slug user).0 slugs (resolve-IsMapped r slug h)) e
