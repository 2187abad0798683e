-- ===== src/ServerEvents.antt =====
-- pkg/serverevents/serverevents.go: the changes that the control plane publishes for the gateway. The
-- action is a text in the source: `unset` is the empty one, `unknown_action` any other.
use mcp_gateway_w.Prelude.{List, [], ◌∷◌, ◌++◌, Text}
use mcp_gateway_w.Prelude.Dict.{Dict}

pub data Action : Type 0 where
  upsert : Action
  removal : Action
  credential_changed : Action
  unset : Action
  unknown_action : Action

pub record Event : Type 0 where
  pub action : Action
  pub org_id : Text
  pub id : Text
  pub slug : Text
  pub server_type : Text
  pub endpoint_url : Text
  pub command : Text
  pub args : List Text
  pub env : Dict Text
  pub allowed_roles : List Text
  pub credential_mode : Text
  pub user_id : Text

-- `MemBus`: handlers act on a state, which is the whole program's.
abbrev pub MemBus : Type 0 → Type 0
MemBus S = List (Event → S → S)

unfoldable pub register : {S : Type 0} → MemBus S → (Event → S → S) → MemBus S
register handlers h = handlers ++ h ∷ []

-- Every handler is called before `Publish` returns.
unfoldable pub publish : {S : Type 0} → MemBus S → Event → S → S
publish [] e s = s
publish (h ∷ hs) e s = publish hs e (h e s)
