-- ===== src/Aggregate.antt =====
-- services/gateway/internal/aggregate/aggregate.go: the tools of several servers as one surface, and
-- `strings.Cut(name, Separator)`, with which services/gateway/internal/mcp/handler.go takes a
-- namespaced name apart.
pub mod Names
pub mod Surface
mod Tests
use mcp_gateway_w.Prelude.{
  ℕ, Bool, ◌&&◌, List, [], ◌∷◌, ◌++◌, Option, none, some, Text, lit, nat_beq, if◌then◌else◌,
}
use mathlib.Core.Option
use mcp_gateway_w.Prelude.Dict.{Dict, lookup, insert}

abbrev pub separator : Text
separator = lit "__"

pub record Tool : Type 0 where
  pub name : Text
  pub description : Text
  pub input_schema : Text

pub record ServerTools : Type 0 where
  pub slug : Text
  pub tools : List Tool

pub record Route : Type 0 where
  pub slug : Text
  pub tool : Text

pub record Result : Type 0 where
  pub tools : List Tool
  pub routes : Dict Route

abbrev pub full_name : Text → Text → Text
full_name slug tool = slug ++ (separator ++ tool)

-- One round of the inner loop.
pub add_tool : Text → Result → Tool → Result
add_tool slug res t = elim (lookup (full_name slug t.name) res.routes) [
  | some _ ↦ res
  | none ↦ record {
    tools = res.tools ++ record t { name = full_name slug t.name } ∷ [];
    routes = insert (full_name slug t.name) (record { slug = slug; tool = t.name }) res.routes;
  }
]

pub add_tools : Text → Result → List Tool → Result
add_tools slug res [] = res
add_tools slug res (t ∷ ts) = add_tools slug (add_tool slug res t) ts

pub add_servers : Result → List ServerTools → Result
add_servers res [] = res
add_servers res (s ∷ ss) = add_servers (add_tools s.slug res s.tools) ss

unfoldable pub aggregate : List ServerTools → Result
unfolding add_servers add_tools add_tool
aggregate servers = add_servers (record { tools = []; routes = [] }) servers

-- `strings.Cut(s, "__")`; `none` stands for `found == false`.
unfoldable pub cut : Text → Option (Text × Text)
cut [] = none
cut (a ∷ []) = none
cut (a ∷ b ∷ s) =
    if nat_beq a b'_' && nat_beq b b'_'
    then some ([], s)
    else Option.map (λ r. (a ∷ r.0, r.1)) (cut (b ∷ s))
