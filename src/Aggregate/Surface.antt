-- ===== src/Aggregate/Surface.antt =====
-- aggregate.go: the routing table and the list of tools that `Aggregate` builds.
use mcp_gateway_w.Prelude.{
  ℕ, ◌+◌, ◌≡◌, refl, ap, ◌∙◌, List, [], ◌∷◌, ◌++◌, Option, none, some, Text, text_beq, text_eq_iff,
  arith, if◌then◌else◌,
}
use mcp_gateway_w.Prelude.Dict.{lookup, lookup-insert}
use mcp_gateway_w.Aggregate.{
  Tool, ServerTools, Route, Result, full_name, add_tool, add_tools, add_servers, aggregate,
}

abbrev pub or_else {ℓ} : {A : Type ℓ} → Option A → Option A → Option A
or_else none y = y
or_else (some x) y = some x

-- The first tool, in the order of the servers and of their tools, whose namespaced name is `n`.
unfoldable pub first_tool : Text → Text → List Tool → Option Route
first_tool n slug [] = none
first_tool n slug (t ∷ ts) =
    if text_beq (full_name slug t.name) n
    then some (record { slug = slug; tool = t.name })
    else first_tool n slug ts

unfoldable pub first_offer : Text → List ServerTools → Option Route
unfolding first_tool
first_offer n [] = none
first_offer n (s ∷ ss) = or_else (first_tool n s.slug s.tools) (first_offer n ss)

-- How many listed tools have the name.
unfoldable pub listed : Text → List Tool → ℕ
listed n [] = 0
listed n (t ∷ ts) = if text_beq t.name n then listed n ts + 1 else listed n ts

abbrev pub as_count : Option Route → ℕ
as_count none = 0
as_count (some r) = 1

listed-append : (n : Text) (ts us : List Tool) → listed n (ts ++ us) ≡ listed n ts + listed n us
unfolding listed
listed-append n [] us = omega arith
listed-append n (t ∷ ts) us = ground (arith, listed-append n ts us)

module _ (n slug : Text) where
  add_tool-routes :
      (res : Result) (t : Tool)
      → lookup n (add_tool slug res t).routes
        ≡ or_else (lookup n res.routes) (
            if text_beq (full_name slug t.name) n
            then some (record { slug = slug; tool = t.name })
            else none)
  unfolding add_tool
  add_tool-routes res t =
      let k = full_name slug t.name in
      ground (
        arith,
        text_eq_iff k n,
        lookup-insert k n (record { slug = slug; tool = t.name }) res.routes,
      )

  add_tool-listed :
      (res : Result) (t : Tool)
      → listed n res.tools ≡ as_count (lookup n res.routes)
      → listed n (add_tool slug res t).tools ≡ as_count (lookup n (add_tool slug res t).routes)
  unfolding add_tool listed
  add_tool-listed res t h =
      let k = full_name slug t.name in
      ground (
        arith,
        text_eq_iff k n,
        lookup-insert k n (record { slug = slug; tool = t.name }) res.routes,
        listed-append n res.tools (record t { name = k } ∷ []),
      )

  add_tools-routes :
      (res : Result) (ts : List Tool)
      → lookup n (add_tools slug res ts).routes
        ≡ or_else (lookup n res.routes) (first_tool n slug ts)
  unfolding add_tools first_tool
  add_tools-routes res [] = ground arith
  add_tools-routes res (t ∷ ts) =
      ground (arith, add_tools-routes (add_tool slug res t) ts, add_tool-routes res t)

  add_tools-listed :
      (res : Result) (ts : List Tool)
      → listed n res.tools ≡ as_count (lookup n res.routes)
      → listed n (add_tools slug res ts).tools ≡ as_count (lookup n (add_tools slug res ts).routes)
  unfolding add_tools
  add_tools-listed res [] h = h
  add_tools-listed res (t ∷ ts) h =
      add_tools-listed (add_tool slug res t) ts (add_tool-listed res t h)

add_servers-routes :
    (n : Text) (res : Result) (ss : List ServerTools)
    → lookup n (add_servers res ss).routes ≡ or_else (lookup n res.routes) (first_offer n ss)
unfolding add_servers first_offer
add_servers-routes n res [] = ground arith
add_servers-routes n res (s ∷ ss) = ground (
  arith,
  add_servers-routes n (add_tools s.slug res s.tools) ss,
  add_tools-routes n s.slug res s.tools,
)

add_servers-listed :
    (n : Text) (res : Result) (ss : List ServerTools)
    → listed n res.tools ≡ as_count (lookup n res.routes)
    → listed n (add_servers res ss).tools ≡ as_count (lookup n (add_servers res ss).routes)
unfolding add_servers
add_servers-listed n res [] h = h
add_servers-listed n res (s ∷ ss) h =
    add_servers-listed n (add_tools s.slug res s.tools) ss (add_tools-listed n s.slug res s.tools h)

-- The routing table sends a name to the first tool, in the order of the servers and of their tools,
-- that has this namespaced name: no later tool overwrites it, and no other name has a route.
pub lookup-aggregate :
    (n : Text) (ss : List ServerTools) → lookup n (aggregate ss).routes ≡ first_offer n ss
unfolding aggregate lookup
lookup-aggregate n ss = add_servers-routes n (record { tools = []; routes = [] }) ss

-- A name is listed once if some server offers a tool with that namespaced name, and never otherwise.
pub listed-aggregate :
    (n : Text) (ss : List ServerTools) → listed n (aggregate ss).tools ≡ as_count (first_offer n ss)
unfolding aggregate lookup listed
listed-aggregate n ss =
    add_servers-listed n (record { tools = []; routes = [] }) ss refl
    ∙ ap as_count (add_servers-routes n (record { tools = []; routes = [] }) ss)
