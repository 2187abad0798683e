-- ===== src/Scim/Config.antt =====
-- services/control-plane/internal/scimbridge/server.go: the administrators' endpoints and the check of
-- the bearer. SHA-256 in hex is `hash`; the random secrets of `crypto/rand` are those of `secret`.
use mcp_gateway_w.Prelude.{
  ℕ, ◌+◌, Bool, not, ◌||◌, List, [], ◌∷◌, ◌++◌, Option, none, some, Text, lit, text_beq,
  if◌then◌else◌,
}
use mcp_gateway_w.Prelude.Dict.{Dict}
use mcp_gateway_w.Audit.{Event}
use mcp_gateway_w.Invites.{new_token, parse_token}
use mcp_gateway_w.Scim.{Connection, upsert_connection, get_connection, delete_connection, Directory}

pub record Handlers (W : Type 0) : Type 0 where
  pub dir : Option (Directory W)
  pub audited : Bool
  pub base_domain : Text
  pub clock : ℕ → ℕ
  pub hash : Text → Text
  pub secret : ℕ → Text

pub record State (W : Type 0) : Type 0 where
  pub outer : W
  pub connections : Dict Connection
  pub events : List Event
  pub readings : ℕ

pub data Body : Type 0 where
  message : Text → Body
  configured_body : Text → Text → Text → Body
  config_body : Text → Text → Option ℕ → Body
  scim_error : Text → Body
  user_body : Text → Text → Bool → Body
  patched_body : Text → Body
  users_body : List (Text × Text) → Body
  no_content : Body

pub record Reply : Type 0 where
  pub status : ℕ
  pub body : Body

abbrev pub reply : ℕ → Body → Reply
reply status body = record { status = status; body = body }

abbrev pub active : Text
active = lit "active"

-- Whose bearer a request carries, or the error that it gets.
pub data Authenticated : Type 0 where
  acts_for : Text → Authenticated
  denied : ℕ → Text → Authenticated

module _ {W : Type 0} where
  abbrev pub now : Handlers W → State W → ℕ
  now h st = h.clock st.readings

  abbrev pub tick : State W → State W
  tick st = record st { readings = st.readings + 1 }

  unfoldable pub scim_base_url : Handlers W → Text → Text
  scim_base_url h org = lit "https://" ++ (org ++ (b'.' ∷ (h.base_domain ++ lit "/scim/v2")))

  unfoldable pub record_event : Handlers W → State W → Text → Text → Text → Text → State W
  record_event h st org actor action target =
      if h.audited
      then record (tick st) {
        events =
            st.events
            ++ record {
              time = now h st;
              org_id = org;
              actor = actor;
              action = action;
              target = target;
              metadata = [];
            }
              ∷ [];
      }
      else st

  -- A body that cannot be read has no mappings.
  unfoldable pub configure : Handlers W → State W → Text → Text → Dict Text → Reply × State W
  unfolding upsert_connection new_token record_event scim_base_url
  configure h st org actor mappings =
      let secret = h.secret st.readings in
      let c : Connection = record {
        org_id = org;
        bearer_hash = h.hash secret;
        group_role_mappings = mappings;
        status = active;
        created_at = now h st;
        last_sync_at = none;
      } in
      let st1 = record (tick st) { connections = upsert_connection st.connections c } in
      (
        reply 200 (configured_body active (scim_base_url h org) (new_token org secret)),
        record_event h st1 org actor (lit "directory_sync.configure") org,
      )

  unfoldable pub get_config : Handlers W → State W → Text → Reply
  unfolding get_connection scim_base_url
  get_config h st org = elim (get_connection st.connections org) [
    | none ↦ reply 404 (message (lit "not configured"))
    | some c ↦ reply 200 (config_body c.status (scim_base_url h org) c.last_sync_at)
  ]

  unfoldable pub rotate_found :
      Handlers W → State W → Text → Text → Option Connection → Reply × State W
  unfolding upsert_connection new_token record_event scim_base_url
  rotate_found h st org actor none = (reply 404 (message (lit "not configured")), st)
  rotate_found h st org actor (some c) =
      let secret = h.secret st.readings in
      let c1 : Connection = record c { bearer_hash = h.hash secret; status = active } in
      let st1 = record (tick st) { connections = upsert_connection st.connections c1 } in
      (
        reply 200 (configured_body active (scim_base_url h org) (new_token org secret)),
        record_event h st1 org actor (lit "directory_sync.rotate") org,
      )

  unfoldable pub rotate : Handlers W → State W → Text → Text → Reply × State W
  unfolding rotate_found get_connection
  rotate h st org actor = rotate_found h st org actor (get_connection st.connections org)

  unfoldable pub disable : Handlers W → State W → Text → Text → Reply × State W
  unfolding delete_connection record_event
  disable h st org actor =
      let st1 = record st { connections = (delete_connection st.connections org).1 } in
      (reply 204 no_content, record_event h st1 org actor (lit "directory_sync.disable") org)

  -- `scimAuth`, from the reading of the bearer on.
  unfoldable pub check_bearer : Handlers W → Text → Text → Option Connection → Authenticated
  check_bearer h org secret none = denied 401 (lit "invalid bearer")
  check_bearer h org secret (some c) =
      if not (text_beq c.status active) || not (text_beq (h.hash secret) c.bearer_hash)
      then denied 401 (lit "invalid bearer")
      else elim h.dir [
        | none ↦ denied 503 (lit "provisioning not configured")
        | some _ ↦ acts_for org
      ]

  unfoldable pub scim_auth : Handlers W → State W → Text → Authenticated
  unfolding check_bearer parse_token get_connection
  scim_auth h st raw = elim (parse_token raw) [
    | none ↦ denied 401 (lit "missing or malformed bearer")
    | some r ↦ check_bearer h r.0 r.1 (get_connection st.connections r.0)
  ]
