-- ===== src/Downstream/Tests.antt =====
-- downstream.go: runs on small inputs, and the theorems at concrete registries.
use mcp_gateway_w.Prelude.{◌≡◌, refl, List, [], ◌∷◌, none, some, Text, lit, text_beq, if◌then◌else◌}
use mcp_gateway_w.Prelude.Dict.{lookup, insert, erase}
use mcp_gateway_w.Downstream.{
  Entry, Registry, new_registry, add_scoped, add, add_provider, remove, invalidate, get, cached,
  find_for_user, store_built, instance_of, not_found, provider_error, get_for_user, adds_scoped,
  adds_provider, removes, Op, step, run, roles_allow, can_access, visible_slugs, registry_for,
  update_org,
}
use mcp_gateway_w.Downstream.Access.{occurrences, visible-can_access}
use mcp_gateway_w.Downstream.Cache.{IsPerUser}

runs : Unit {0}
unfolding new_registry add_scoped add add_provider remove invalidate get cached find_for_user
    store_built get_for_user step run roles_allow can_access visible_slugs registry_for update_org
    occurrences lookup insert erase text_beq
runs = tt

abbrev gh : Text
gh = lit "gh"

abbrev jira : Text
jira = lit "jira"

abbrev alice : Text
alice = lit "alice"

abbrev dev : List Text
dev = lit "dev" ∷ []

abbrev cached_entry : Entry
cached_entry = record { ds = none; provider = some 5; users = some ((alice, 9) ∷ []); roles = dev }

abbrev empty_entry : Entry
empty_entry = record { ds = none; provider = some 5; users = some []; roles = dev }

abbrev with_entry : Entry → Registry
with_entry e = record { servers = (gh, e) ∷ []; order = gh ∷ [] }

abbrev ops : List Op
ops = adds_scoped gh 1 dev ∷ adds_provider jira 2 [] ∷ adds_scoped gh 3 [] ∷ removes jira ∷ []

replaced_closes : (add_scoped (with_entry cached_entry) gh 7 []).1 ≡ 9 ∷ []
unfolding runs
replaced_closes = refl

open_to_all : (add new_registry gh 4).1 ≡ []
unfolding runs
open_to_all = refl

per_user_get : get (with_entry cached_entry) gh ≡ some none
unfolding runs
per_user_get = refl

built_for_alice : (get_for_user (with_entry empty_entry) gh alice (some 11)).1 ≡ instance_of 11
unfolding runs
built_for_alice = refl

no_credentials : (get_for_user (with_entry empty_entry) gh alice none).1 ≡ provider_error
unfolding runs
no_credentials = refl

unknown_slug : (get_for_user new_registry gh alice none).1 ≡ not_found
unfolding runs
unknown_slug = refl

visible-can_access_example :
    occurrences gh (visible_slugs (run new_registry ops) [])
    ≡ (if can_access (run new_registry ops) gh [] then 1 else 0)
visible-can_access_example = visible-can_access ops [] gh

cached_IsPerUser : IsPerUser (with_entry cached_entry) gh 5 cached_entry ((alice, 9) ∷ [])
unfolding runs
cached_IsPerUser = record { found = refl; no_fixed = refl; provider = refl; users = refl }

empty_IsPerUser : IsPerUser (with_entry empty_entry) gh 5 empty_entry []
unfolding runs
empty_IsPerUser = record { found = refl; no_fixed = refl; provider = refl; users = refl }
