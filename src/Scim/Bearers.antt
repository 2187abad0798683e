-- ===== src/Scim/Bearers.antt =====
-- scimbridge/server.go: which bearers are accepted, and what configuring, rotating and disabling do to
-- them.
use mcp_gateway_w.Prelude.{
  ◌≡◌, ◌≢◌, refl, ap, ◌∙◌, inl, inr, Bool-cases, Option-cases, [], Option, none, some, ◌+◌, Text,
  lit, text_eq_iff, eq_refl, Lacks, arith,
}
use mcp_gateway_w.Prelude.Dict.{Dict, lookup, insert, lookup-insert, lookup-erase}
use mcp_gateway_w.Invites.{new_token, parse_token}
use mcp_gateway_w.Invites.Tokens.{parse_token-new_token}
use mcp_gateway_w.Scim.{Connection, upsert_connection, get_connection, delete_connection, Directory}
use mcp_gateway_w.Scim.Config.{
  Handlers, State, active, record_event, configure, rotate_found, rotate, disable, acts_for,
  check_bearer, scim_auth,
}

-- The bearer is one of the active connection of the organization.
pub record IsBearer {W : Type 0} (h : Handlers W) (m : Dict Connection) (raw org : Text)
    : Type 0 where
  pub secret : Text
  pub connection : Connection
  pub parsed : parse_token raw ≡ some (org, secret)
  pub found : lookup org m ≡ some connection
  pub is_active : connection.status ≡ active
  pub hashed : h.hash secret ≡ connection.bearer_hash

module _ {W : Type 0} (h : Handlers W) where
  record_event-connections :
      (st : State W) (org actor action target : Text)
      → (record_event h st org actor action target).connections ≡ st.connections
  unfolding record_event
  record_event-connections st org actor action target = elim (Bool-cases h.audited) [
    | inl e ↦ rw e refl
    | inr e ↦ rw e refl
  ]

  check_bearer_sound :
      (org secret other : Text) (o : Option Connection)
      → check_bearer h org secret o ≡ acts_for other
      → (org ≡ other)
        × (c : Connection) × (o ≡ some c)
        × (c.status ≡ active)
        × (h.hash secret ≡ c.bearer_hash)
  unfolding check_bearer
  check_bearer_sound org secret other none e = absurd (ground (arith, e))
  check_bearer_sound org secret other (some c) e =
      let a = text_eq_iff c.status active in
      let k = text_eq_iff (h.hash secret) c.bearer_hash in
      (ground (arith, e, a, k), c, refl, ground (arith, e, a, k), ground (arith, e, a, k))

  scim_auth-parsed :
      (st : State W) (raw org secret : Text)
      → parse_token raw ≡ some (org, secret)
      → scim_auth h st raw ≡ check_bearer h org secret (lookup org st.connections)
  unfolding scim_auth get_connection
  scim_auth-parsed st raw org secret e = ground (arith, e)

  -- A bearer that is accepted is one of the active connection of the organization for which the
  -- request then acts.
  pub scim_auth-IsBearer :
      (st : State W) (raw org : Text)
      → scim_auth h st raw ≡ acts_for org
      → IsBearer h st.connections raw org
  unfolding scim_auth get_connection
  scim_auth-IsBearer st raw org e = elim (Option-cases (parse_token raw)) [
    | inl q ↦ absurd (ground (arith, e, q))
    | inr ((o, secret), q) ↦
        let checked : check_bearer h o secret (lookup o st.connections) ≡ acts_for org =
          ground (arith, e, q) in
        let (same, c, f, a, k) =
          check_bearer_sound o secret org (lookup o st.connections) checked in
        record {
          secret = secret;
          connection = c;
          parsed = cc (q, same);
          found = cc (f, same);
          is_active = a;
          hashed = k;
        }
  ]

  check_bearer_accepts :
      (org secret : Text) (c : Connection) (dir : Directory W)
      → h.dir ≡ some dir
      → c.status ≡ active
      → h.hash secret ≡ c.bearer_hash
      → check_bearer h org secret (some c) ≡ acts_for org
  unfolding check_bearer
  check_bearer_accepts org secret c dir d a k =
      ground (arith, d, text_eq_iff c.status active, text_eq_iff (h.hash secret) c.bearer_hash)

  -- The bearer that `Configure` shows is accepted from then on, where the organization's name and the
  -- secret are not empty, the name has no dot, and a directory is configured.
  configure-scim_auth :
      (st : State W) (org by : Text) (mappings : Dict Text) (dir : Directory W)
      → h.dir ≡ some dir
      → Lacks b'.' org
      → org ≢ []
      → h.secret st.readings ≢ []
      → scim_auth h (configure h st org by mappings).1 (new_token org (h.secret st.readings))
        ≡ acts_for org
  unfolding scim_auth configure upsert_connection get_connection
  configure-scim_auth st org by mappings dir d l n s =
      let c : Connection = record {
        org_id = org;
        bearer_hash = h.hash (h.secret st.readings);
        group_role_mappings = mappings;
        status = active;
        created_at = h.clock st.readings;
        last_sync_at = none;
      } in
      let st1 : State W = record st {
        readings = st.readings + 1;
        connections = insert org c st.connections;
      } in
      let kept = record_event-connections st1 org by (lit "directory_sync.configure") org in
      let found : lookup org (configure h st org by mappings).1.connections ≡ some c =
        ground (arith, kept, eq_refl org, lookup-insert org org c st.connections) in
      scim_auth-parsed (configure h st org by mappings).1 (new_token org (h.secret st.readings)) org
        (h.secret st.readings) (parse_token-new_token org (h.secret st.readings) l n s)
      ∙ (ap (check_bearer h org (h.secret st.readings)) found
          ∙ check_bearer_accepts org (h.secret st.readings) c dir d refl refl)

  -- After `Rotate` a bearer of the organization is accepted only if its secret has the hash of the new
  -- one.
  rotate-scim_auth :
      (st : State W) (org by raw : Text) (c : Connection)
      → get_connection st.connections org ≡ some c
      → c.org_id ≡ org
      → scim_auth h (rotate h st org by).1 raw ≡ acts_for org
      → (secret : Text) × (parse_token raw ≡ some (org, secret))
        × (h.hash secret ≡ h.hash (h.secret st.readings))
  unfolding rotate rotate_found upsert_connection get_connection
  rotate-scim_auth st org by raw c f o e =
      let b = scim_auth-IsBearer (rotate h st org by).1 raw org e in
      let c1 : Connection = record c {
        bearer_hash = h.hash (h.secret st.readings);
        status = active;
      } in
      let st1 : State W = record st {
        readings = st.readings + 1;
        connections = insert c.org_id c1 st.connections;
      } in
      let kept = record_event-connections st1 org by (lit "directory_sync.rotate") org in
      let found : lookup org (rotate h st org by).1.connections ≡ some c1 =
        ground (arith, f, o, kept, eq_refl org, lookup-insert c.org_id org c1 st.connections) in
      (b.secret, b.parsed, ground (arith, found, b.found, b.hashed))

  -- After `Disable` no bearer acts for the organization.
  disable-scim_auth :
      (st : State W) (org by raw : Text) → scim_auth h (disable h st org by).1 raw ≢ acts_for org
  unfolding disable delete_connection
  disable-scim_auth st org by raw e =
      let b = scim_auth-IsBearer (disable h st org by).1 raw org e in
      let st1 : State W = record st { connections = (delete_connection st.connections org).1 } in
      let kept = record_event-connections st1 org by (lit "directory_sync.disable") org in
      ground (arith, kept, b.found, eq_refl org, lookup-erase org org st.connections)
