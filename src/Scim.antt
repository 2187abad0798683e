-- ===== src/Scim.antt =====
-- services/control-plane/internal/scimbridge/store.go: the connections of directory synchronization,
-- one for each organization, in memory, and the directory of idp/directory.go, a parameter. A bearer
-- is made and read as an invitation's token is, which `new_token` and `parse_token` are. Times are
-- nanoseconds.
pub mod Config
pub mod Users
pub mod Server
mod Bearers
mod Realm
mod Tests
use mcp_gateway_w.Prelude.{ℕ, Bool, true, false, Option, none, some, Text}
use mcp_gateway_w.Prelude.Dict.{Dict, lookup, insert, erase}
use mcp_gateway_w.Idp.{User, Answer}

pub record Connection : Type 0 where
  pub org_id : Text
  pub bearer_hash : Text
  pub group_role_mappings : Dict Text
  pub status : Text
  pub created_at : ℕ
  pub last_sync_at : Option ℕ

unfoldable pub upsert_connection : Dict Connection → Connection → Dict Connection
upsert_connection m c = insert c.org_id c m

-- `none` is `ErrNotFound`.
unfoldable pub get_connection : Dict Connection → Text → Option Connection
get_connection m org = lookup org m

unfoldable pub delete_connection : Dict Connection → Text → Bool × Dict Connection
delete_connection m org = elim (lookup org m) [ none ↦ (false, m) | some _ ↦ (true, erase org m) ]

unfoldable pub touch_connection : Dict Connection → Text → ℕ → Bool × Dict Connection
touch_connection m org t = elim (lookup org m) [
  | none ↦ (false, m)
  | some c ↦ (true, insert org (record c { last_sync_at = some t }) m)
]

-- A call answers `none` or the message of an error, where it answers nothing else.
pub record Directory (W : Type 0) : Type 0 where
  pub find_user_by_username : W → Text → Text → Answer (Option Text)
  pub create_user : W → Text → User → Answer Text × W
  pub set_user_enabled : W → Text → Text → Bool → Option Text × W
  pub assign_realm_role : W → Text → Text → Text → Option Text × W
  pub remove_realm_role : W → Text → Text → Text → Option Text × W
