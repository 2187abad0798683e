-- ===== src/Brokering.antt =====
-- services/control-plane/internal/brokering/store.go: the identity providers that an organization
-- brokers, in memory. The broker of idp/brokering.go is a parameter over its states; `none` in place
-- of an error message is success. Times are nanoseconds.
pub mod Handlers
mod Secrecy
mod Tests
use mcp_gateway_w.Prelude.{
  ℕ, ◌+◌, Bool, true, false, not, ◌&&◌, ◌||◌, List, [], ◌∷◌, ◌++◌, Option, none, some, Text, lit,
  text_beq, bearer, if◌then◌else◌, is_empty,
}
use mcp_gateway_w.Prelude.Dict.{Dict, lookup, insert, erase}
use mcp_gateway_w.Audit.{Event, text_leb}
use mcp_gateway_w.Authz.{has_role, Jwt, JwtValidator, Validated, valid, refused, validate_for_org}
use mcp_gateway_w.Secrets.{SecretStore}

pub record IdentityProvider : Type 0 where
  pub alias : Text
  pub provider_id : Text
  pub enabled : Bool
  pub config : Dict Text

pub record Broker (W : Type 0) : Type 0 where
  pub upsert_identity_provider : W → Text → IdentityProvider → Option Text × W
  pub delete_identity_provider : W → Text → Text → Option Text × W

-- What is answered of a link leaves `secret_ref` out.
pub record Link : Type 0 where
  pub id : Text
  pub org_id : Text
  pub alias : Text
  pub link_type : Text
  pub config : Dict Text
  pub secret_ref : Text
  pub role_mappings : Dict Text
  pub enabled : Bool
  pub created_at : ℕ
  pub updated_at : ℕ

unfoldable pub link_key : Text → Text → Text
link_key org alias = org ++ (b'/' ∷ alias)

unfoldable pub upsert_link : Dict Link → Link → Dict Link
unfolding link_key
upsert_link m l = insert (link_key l.org_id l.alias) l m

unfoldable pub links_of : Text → Dict Link → List Link
links_of org [] = []
links_of org ((k, l) ∷ m) =
    let rest = links_of org m in if text_beq l.org_id org then l ∷ rest else rest

unfoldable pub insert_by_alias : Link → List Link → List Link
insert_by_alias l [] = l ∷ []
insert_by_alias l (j ∷ js) =
    let rest = insert_by_alias l js in if text_leb l.alias j.alias then l ∷ j ∷ js else j ∷ rest

unfoldable pub sort_by_alias : List Link → List Link
unfolding insert_by_alias
sort_by_alias [] = []
sort_by_alias (l ∷ ls) = insert_by_alias l (sort_by_alias ls)

unfoldable pub list_links : Dict Link → Text → List Link
unfolding links_of sort_by_alias
list_links m org = sort_by_alias (links_of org m)

-- `none` is `ErrNotFound`.
unfoldable pub get_link : Dict Link → Text → Text → Option Link
unfolding link_key
get_link m org alias = lookup (link_key org alias) m

unfoldable pub delete_link : Dict Link → Text → Text → Bool × Dict Link
unfolding link_key
delete_link m org alias = elim (lookup (link_key org alias) m) [
  | none ↦ (false, m)
  | some _ ↦ (true, erase (link_key org alias) m)
]
