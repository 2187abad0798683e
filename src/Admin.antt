-- ===== src/Admin.antt =====
-- services/control-plane/internal/admin/store.go: the definitions of the servers and the in-memory
-- store. The type of a server is a text, as the API takes it. Times are nanoseconds.
pub mod Handlers
pub mod Edits
pub mod Credentials
pub mod Api
mod Stored
mod Changes
mod Editing
mod Rotation
mod Requests
mod Invariant
mod Agreement
mod Propagation
mod Listed
mod Purge
mod Revival
mod Tests
use mcp_gateway_w.Prelude.{
  ℕ, suc, Bool, true, false, ◌&&◌, List, [], ◌∷◌, ◌++◌, Option, none, some, Text, lit, text_beq,
  if◌then◌else◌,
}
use mcp_gateway_w.Prelude.Dict.{Dict, lookup, insert, erase}
use mcp_gateway_w.Audit.{decimal}

abbrev pub remote_http : Text
remote_http = lit "remote_http"

abbrev pub stdio : Text
stdio = lit "stdio"

pub data Health : Type 0 where
  unknown : Health
  healthy : Health
  unreachable : Health
  auth_failed : Health
  startup_failed : Health

pub record Server : Type 0 where
  pub id : Text
  pub org_id : Text
  pub slug : Text
  pub server_type : Text
  pub endpoint_url : Text
  pub command : Text
  pub args : List Text
  pub env : Dict Text
  pub credential_mode : Text
  pub credential_set : Bool
  pub allowed_roles : List Text
  pub enabled : Bool
  pub health : Health
  pub health_detail : Text
  pub created_at : ℕ

pub record Store : Type 0 where
  pub by_id : Dict Server
  pub seq : ℕ

unfoldable pub store_key : Text → Text → Text
store_key org id = org ++ (b'/' ∷ id)

unfoldable pub server_id : ℕ → Text
unfolding decimal
server_id n = lit "srv-" ++ decimal n

unfoldable pub slug_taken : Dict Server → Text → Text → Bool
slug_taken [] org slug = false
slug_taken ((k, e) ∷ m) org slug =
    let rest = slug_taken m org slug in
    if text_beq e.org_id org && text_beq e.slug slug then true else rest

-- `none` is `ErrSlugTaken`.
unfoldable pub create_server : Store → Server → Option Server × Store
unfolding slug_taken server_id store_key
create_server m s =
    let s1 = record s { id = server_id (suc m.seq) } in
    if slug_taken m.by_id s.org_id s.slug then (none, m) else (
      some s1,
      record { by_id = insert (store_key s1.org_id s1.id) s1 m.by_id; seq = suc m.seq },
    )

-- `none` is `ErrNotFound`, here and below.
unfoldable pub get_server : Store → Text → Text → Option Server
unfolding store_key
get_server m org id = lookup (store_key org id) m.by_id

unfoldable pub servers_of : Text → Dict Server → List Server
servers_of org [] = []
servers_of org ((k, s) ∷ m) =
    let rest = servers_of org m in if text_beq s.org_id org then s ∷ rest else rest

unfoldable pub list_servers : Store → Text → List Server
unfolding servers_of
list_servers m org = servers_of org m.by_id

unfoldable pub update_server : Store → Server → Option Server × Store
unfolding store_key
update_server m s = elim (lookup (store_key s.org_id s.id) m.by_id) [
  | none ↦ (none, m)
  | some _ ↦ (some s, record m { by_id = insert (store_key s.org_id s.id) s m.by_id })
]

unfoldable pub delete_server : Store → Text → Text → Bool × Store
unfolding store_key
delete_server m org id = elim (lookup (store_key org id) m.by_id) [
  | none ↦ (false, m)
  | some _ ↦ (true, record m { by_id = erase (store_key org id) m.by_id })
]
