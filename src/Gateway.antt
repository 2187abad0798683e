-- ===== src/Gateway.antt =====
-- services/gateway/internal/server/server.go, creds.go and reconcile.go: applying the published changes
-- to the catalog. `built` lists what each instance and provider was built of, by its identity, latest
-- first; `closed` what the catalog closed. `http.Header` writes a key in the form of `header_key`.
pub mod Events
pub mod Credentials
pub mod Front
mod Discovery
mod Tests
use mcp_gateway_w.Prelude.{
  ℕ, suc, Bool, List, [], ◌∷◌, ◌++◌, map, Option, none, some, Text, lit, text_beq, if◌then◌else◌,
}
use mcp_gateway_w.Prelude.Dict.{Dict, insert}
use mcp_gateway_w.Downstream.{
  Registry, Catalog, add_scoped, add_provider, remove, invalidate, update_org,
}
use mcp_gateway_w.Secrets.{SecretStore, org_ref, user_ref}
use mcp_gateway_w.ServerEvents.{
  upsert, removal, credential_changed, unset, unknown_action, Action, Event,
}

pub data Client : Type 0 where
  remote_client : Text → Bool → Dict Text → Client
  stdio_client : Text → List Text → List Text → Client
  provider_of : Event → Client

pub record Server (S : Type 0) : Type 0 where
  pub secrets_api : SecretStore S
  pub block_egress : Bool
  pub header_key : Text → Text

pub record State : Type 0 where
  pub catalog : Catalog
  pub next : ℕ
  pub built : List (ℕ × Client)
  pub closed : List ℕ

-- A gateway that has just started.
abbrev pub new_gateway : State
new_gateway = record { catalog = []; next = 0; built = []; closed = [] }

unfoldable pub cred_headers : (Text → Text) → Dict Text → Dict Text
cred_headers key [] = []
cred_headers key ((k, v) ∷ m) = insert (key k) v (cred_headers key m)

unfoldable pub kv_env : Dict Text → List Text
kv_env [] = []
kv_env ((k, v) ∷ m) = (k ++ (b'=' ∷ v)) ∷ kv_env m

abbrev or_empty : Option (Dict Text) → Dict Text
or_empty none = []
or_empty (some m) = m

-- The empty map is the source's nil.
unfoldable pub resolve_credentials : {S : Type 0} → SecretStore S → S → Event → Dict Text
unfolding org_ref
resolve_credentials api secrets e =
    if text_beq e.credential_mode (lit "org_shared")
    then or_empty (api.get secrets (org_ref e.org_id e.id))
    else []

-- Registers what was built under the next identity.
unfoldable pub register : State → Text → Client → (ℕ → Registry → Registry × List ℕ) → State
unfolding update_org
register st org client add =
    let (c, closed) = update_org st.catalog org (add st.next) in
    record {
      catalog = c;
      next = suc st.next;
      built = (st.next, client) ∷ st.built;
      closed = st.closed ++ closed;
    }

abbrev on_catalog : State → Text → (Registry → Registry × List ℕ) → State
on_catalog st org f =
    let (c, closed) = update_org st.catalog org f in
    record st { catalog = c; closed = st.closed ++ closed }

unfoldable pub upsert_per_user : State → Event → State
unfolding register add_provider
upsert_per_user st e =
    let st1 =
      register st e.org_id (provider_of e) (λ i r. add_provider r e.slug i e.allowed_roles) in
    if text_beq e.server_type (lit "remote_http")
    then st1
    else if text_beq e.server_type (lit "stdio")
    then st1
    else st

abbrev pub or_upsert : Action → Action
or_upsert a = elim a [
  | unset ↦ upsert
  | upsert ↦ upsert
  | removal ↦ removal
  | credential_changed ↦ credential_changed
  | unknown_action ↦ unknown_action
]

module _ {S : Type 0} (sv : Server S) where
  -- What a provider builds from the credentials of a user.
  unfoldable pub user_client : Event → Dict Text → Option Client
  unfolding cred_headers kv_env
  user_client e creds =
      if text_beq e.server_type (lit "remote_http")
      then some (remote_client e.endpoint_url sv.block_egress (cred_headers sv.header_key creds))
      else if text_beq e.server_type (lit "stdio")
      then some (stdio_client e.command e.args (kv_env e.env ++ kv_env creds))
      else none

  -- The provider that `perUserProvider` returns; `none` is an error.
  unfoldable pub provide : S → Event → Text → Option Client
  unfolding user_ref user_client
  provide secrets e user = elim (sv.secrets_api.get secrets (user_ref e.org_id e.id user)) [
    | none ↦ none
    | some creds ↦ user_client e creds
  ]

  unfoldable pub upsert_shared : S → State → Event → State
  unfolding register add_scoped resolve_credentials cred_headers kv_env
  upsert_shared secrets st e =
      let creds = resolve_credentials sv.secrets_api secrets e in
      let add : ℕ → Registry → Registry × List ℕ = λ i r. add_scoped r e.slug i e.allowed_roles in
      let remote =
        remote_client e.endpoint_url sv.block_egress (cred_headers sv.header_key creds) in
      let process = stdio_client e.command e.args (kv_env e.env ++ kv_env creds) in
      if text_beq e.server_type (lit "remote_http")
      then register st e.org_id remote add
      else if text_beq e.server_type (lit "stdio")
      then register st e.org_id process add
      else st

  unfoldable pub apply_server_event : S → State → Event → State
  unfolding upsert_per_user upsert_shared update_org invalidate remove
  apply_server_event secrets st e = elim e.action [
    | upsert ↦
        if text_beq e.credential_mode (lit "per_user")
        then upsert_per_user st e
        else upsert_shared secrets st e
    | credential_changed ↦ on_catalog st e.org_id (λ r. invalidate r e.slug e.user_id)
    | removal ↦ on_catalog st e.org_id (λ r. remove r e.slug)
    | unset ↦ st
    | unknown_action ↦ st
  ]

  -- The events that were published, latest first, each applied with the secrets that the gateway then
  -- reads.
  unfoldable pub replay : List (S × Event) → State → State
  unfolding apply_server_event
  replay [] st = st
  replay ((secrets, e) ∷ es) st = apply_server_event secrets (replay es st) e

  -- `Reconcile`, with what the source listed.
  unfoldable pub reconcile : List Event → S → State → State
  unfolding apply_server_event
  reconcile [] secrets st = st
  reconcile (e ∷ es) secrets st =
      reconcile es secrets
        (apply_server_event secrets st (record e { action = or_upsert e.action }))
