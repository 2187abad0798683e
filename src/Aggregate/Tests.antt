-- ===== src/Aggregate/Tests.antt =====
-- aggregate.go: runs on small inputs, and the theorems at concrete servers.
use mcp_gateway_w.Prelude.{◌≡◌, refl, List, [], ◌∷◌, none, some, Text, lit, text_beq}
use mcp_gateway_w.Prelude.Dict.{lookup, insert}
use mcp_gateway_w.Aggregate.{Tool, ServerTools, aggregate, cut}
use mcp_gateway_w.Aggregate.Surface.{first_tool, first_offer, listed, lookup-aggregate}

runs : Unit {0}
unfolding aggregate cut first_tool first_offer listed lookup insert text_beq
runs = tt

abbrev tool : Text → Tool
tool n = record { name = n; description = []; input_schema = lit "{}" }

abbrev two_servers : List ServerTools
two_servers =
    record { slug = lit "gh"; tools = tool (lit "search") ∷ tool (lit "search") ∷ [] }
    ∷ record { slug = lit "jira"; tools = tool (lit "search") ∷ [] }
    ∷ []

names_kept : listed (lit "gh__search") (aggregate two_servers).tools ≡ 1
unfolding runs
names_kept = refl

cut_first : cut (lit "a__b__t") ≡ some (lit "a", lit "b__t")
unfolding runs
cut_first = refl

no_separator : cut (lit "a_b") ≡ none
unfolding runs
no_separator = refl

lookup-aggregate_example :
    lookup (lit "jira__search") (aggregate two_servers).routes
    ≡ some (record { slug = lit "jira"; tool = lit "search" })
unfolding runs
lookup-aggregate_example = lookup-aggregate (lit "jira__search") two_servers
