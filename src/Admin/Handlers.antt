-- ===== src/Admin/Handlers.antt =====
-- services/control-plane/internal/admin/handlers.go, bus.go, health.go and audit.go: what the handlers
-- of an organization's servers share. The sink is that of bus.go; `published` lists what it
-- gave to the bus, latest first. The answers of remote endpoints are those of `probe`, by the number
-- of the request; the audit log is the one in memory, absent without a digest.
use mcp_gateway_w.Prelude.{
  ℕ, suc, ◌/◌, ◌||◌, List, [], ◌∷◌, ◌++◌, Option, none, some, Text, lit, nat_beq, if◌then◌else◌,
}
use mcp_gateway_w.Prelude.Dict.{Dict}
use mcp_gateway_w.Audit.{Record, Digest, append_record}
use mcp_gateway_w.Authz.{Principal}
use mcp_gateway_w.Secrets.{SecretStore}
use mcp_gateway_w.ServerEvents.{upsert, removal, credential_changed, Event}
use mcp_gateway_w.Admin.{Store, Health, healthy, unreachable, auth_failed, Server}

-- What a request to a remote endpoint came to: an error, or a status with its text.
pub data Probe : Type 0 where
  failed : Text → Probe
  answered : ℕ → Text → Probe

pub record Handlers (S : Type 0) : Type 0 where
  pub secrets : SecretStore S
  pub audit : Option Digest
  pub clock : ℕ → ℕ
  pub probe : ℕ → Text → Probe

pub record State (S : Type 0) : Type 0 where
  pub store : Store
  pub secrets : S
  pub published : List Event
  pub records : List Record
  pub readings : ℕ

pub data Body : Type 0 where
  message : Text → Body
  server_body : Server → Body
  servers_body : List Server → Body
  records_body : List Record → Body
  no_content : Body

pub record Reply : Type 0 where
  pub status : ℕ
  pub body : Body

abbrev pub reply : ℕ → Body → Reply
reply status body = record { status = status; body = body }

unfoldable pub probe_remote : Probe → Health × Text
probe_remote (failed msg) = (unreachable, msg)
probe_remote (answered code text) =
    if nat_beq code 401 || nat_beq code 403
    then (auth_failed, lit "remote returned " ++ text)
    else if nat_beq (code / 100) 2
    then (healthy, [])
    else (unreachable, lit "remote returned " ++ text)

unfoldable pub added : Server → Event
added s = record {
  action = upsert;
  org_id = s.org_id;
  id = s.id;
  slug = s.slug;
  server_type = s.server_type;
  endpoint_url = s.endpoint_url;
  command = s.command;
  args = s.args;
  env = s.env;
  allowed_roles = s.allowed_roles;
  credential_mode = s.credential_mode;
  user_id = [];
}

unfoldable pub removed : Server → Event
removed s = record {
  action = removal;
  org_id = s.org_id;
  id = s.id;
  slug = s.slug;
  server_type = [];
  endpoint_url = [];
  command = [];
  args = [];
  env = [];
  allowed_roles = [];
  credential_mode = [];
  user_id = [];
}

unfoldable pub rotated : Server → Text → Event
unfolding added removed
rotated s [] = added s
rotated s (a ∷ u) = record (removed s) { action = credential_changed; user_id = a ∷ u }

abbrev pub actor : Option Principal → Text
actor none = []
actor (some p) = p.user_id

module _ {S : Type 0} where
  abbrev pub now : Handlers S → State S → ℕ
  now h st = h.clock st.readings

  abbrev pub tick : State S → State S
  tick st = record st { readings = suc st.readings }

  abbrev pub publish : State S → Event → State S
  publish st e = record st { published = e ∷ st.published }

  unfoldable pub record_event :
      Handlers S → State S → Text → Option Principal → Text → Text → Dict Text → State S
  record_event h st org p action target meta = elim h.audit [
    | none ↦ st
    | some d ↦ record (tick st) {
      records = append_record d (now h st) st.records (record {
        time = 0;
        org_id = org;
        actor = actor p;
        action = action;
        target = target;
        metadata = meta;
      });
    }
  ]
