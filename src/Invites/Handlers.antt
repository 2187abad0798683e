-- ===== src/Invites/Handlers.antt =====
-- services/control-plane/internal/invites/handlers.go. The identity provider is that of Idp.antt,
-- SHA-256 in hex is `hash`, and the random texts of `crypto/rand` are `secret` and `new_id`. `sent`
-- lists what the notifier was given, latest first.
use mcp_gateway_w.Prelude.{
  ℕ, ◌+◌, Bool, true, false, not, ◌||◌, List, [], ◌∷◌, ◌++◌, Option, none, some, Text, lit, ltb,
  nat_beq, if◌then◌else◌, bearer,
}
use mcp_gateway_w.Prelude.Dict.{Dict, insert}
use mcp_gateway_w.Audit.{Event}
use mcp_gateway_w.Authz.{has_role, Jwt, JwtValidator, Validated, valid, refused, validate_for_org}
use mcp_gateway_w.Idp.{Keycloak, Answer, User}
use mcp_gateway_w.Invites.{
  Status, pending, accepted, revoked, Invitation, list_invitations, get_invitation,
  get_by_token_hash, update_invitation, new_token, parse_token,
}

pub record Handlers (W : Type 0) : Type 0 where
  pub kc : Option (Keycloak W)
  pub audited : Bool
  pub clock : ℕ → ℕ
  pub hash : Text → Text
  pub secret : ℕ → Text
  pub new_id : ℕ → Text

pub record State (W : Type 0) : Type 0 where
  pub outer : W
  pub invitations : Dict Invitation
  pub events : List Event
  pub sent : List (Text × Text)
  pub readings : ℕ

abbrev pub contains_at : Text → Bool
contains_at [] = false
contains_at (b ∷ s) = nat_beq b b'@' || contains_at s

-- 7 * 24 * time.Hour.
abbrev pub default_ttl : ℕ
default_ttl = 604800000000000

pub record CreateReq : Type 0 where
  pub email : Text
  pub roles : List Text

pub data Body : Type 0 where
  message : Text → Body
  invitation : Invitation → Body
  invitations_body : List Invitation → Body
  accepted_body : Text → Text → List Text → Body
  no_content : Body

pub record Reply : Type 0 where
  pub status : ℕ
  pub body : Body

abbrev reply : ℕ → Body → Reply
reply status body = record { status = status; body = body }

abbrev pub invited_user : Invitation → User
invited_user inv = record {
  username = inv.email;
  email = inv.email;
  enabled = true;
  required_actions = lit "UPDATE_PASSWORD" ∷ [];
}

abbrev pub is_pending : Status → Bool
is_pending s = elim s [ pending ↦ true | _ ↦ false ]

module _ {W : Type 0} where
  abbrev pub now : Handlers W → State W → ℕ
  now h st = h.clock st.readings

  abbrev pub tick : State W → State W
  tick st = record st { readings = st.readings + 1 }

  unfoldable pub record_event : Handlers W → State W → Text → Text → Text → Text → State W
  record_event h st org actor action target =
      if h.audited
      then record (tick st) {
        events =
            st.events
            ++ record {
              time = now h st;
              org_id = org;
              actor = actor;
              action = action;
              target = target;
              metadata = [];
            }
              ∷ [];
      }
      else st

  -- `none` is a body that cannot be read.
  unfoldable pub create : Handlers W → State W → Text → Text → Option CreateReq → Reply × State W
  unfolding new_token record_event
  create h st org actor none = (reply 422 (message (lit "valid email required")), st)
  create h st org actor (some req) =
      let inv : Invitation = record {
        id = h.new_id st.readings;
        org_id = org;
        email = req.email;
        roles = req.roles;
        token_hash = h.hash (h.secret st.readings);
        status = pending;
        expires_at = now h st + default_ttl;
        created_by = actor;
        created_at = now h st;
        accepted_at = none;
      } in
      let st1 = record (tick st) {
        invitations = insert inv.id inv st.invitations;
        sent = (req.email, new_token org (h.secret st.readings)) ∷ st.sent;
      } in
      if not (contains_at req.email)
      then (reply 422 (message (lit "valid email required")), st)
      else (
        reply 201 (invitation inv),
        record_event h st1 org actor (lit "invitation.create") req.email,
      )

  unfoldable pub revoke : Handlers W → State W → Text → Text → Text → Reply × State W
  unfolding get_invitation update_invitation record_event
  revoke h st org actor id = elim (get_invitation st.invitations org id) [
    | none ↦ (reply 404 (message (lit "invitation not found")), st)
    | some inv ↦
        let m = update_invitation st.invitations (record inv { status = revoked }) in
        (
          reply 204 no_content,
          record_event h (record st { invitations = m }) org actor (lit "invitation.revoke")
              inv.email,
        )
  ]

  unfoldable pub assign_roles : Keycloak W → W → Text → Text → List Text → Bool × W
  assign_roles kc w org uid [] = (true, w)
  assign_roles kc w org uid (r ∷ rs) =
      let (e, w1) = kc.assign_realm_role w org uid r in
      let rest = assign_roles kc w1 org uid rs in elim e [ none ↦ rest | some msg ↦ (false, w1) ]

  -- After the roles were assigned, or one was not.
  unfoldable pub granted : Handlers W → State W → Text → Invitation → Bool × W → Reply × State W
  unfolding update_invitation record_event
  granted h st org inv (false, w) =
      (reply 500 (message (lit "assign role failed")), record st { outer = w })
  granted h st org inv (true, w) =
      let inv1 : Invitation = record inv { status = accepted; accepted_at = some (now h st) } in
      let st1 : State W = record (tick st) {
        outer = w;
        invitations = update_invitation st.invitations inv1;
      } in
      (
        reply 200 (accepted_body org inv.email inv.roles),
        record_event h st1 org inv.email (lit "invitation.accept") inv.email,
      )

  -- After the user was created, or was not.
  unfoldable pub grant :
      Handlers W → Keycloak W → State W → Text → Invitation → Answer Text → Reply × State W
  unfolding assign_roles granted
  grant h kc st org inv (Answer.failed msg) = (reply 500 (message (lit "create user failed")), st)
  grant h kc st org inv (Answer.ok uid) =
      granted h st org inv (assign_roles kc st.outer org uid inv.roles)

  unfoldable pub create_invited :
      Handlers W → State W → Text → Invitation → Option (Keycloak W) → Reply × State W
  unfolding grant
  create_invited h st org inv none = (reply 503 (message (lit "provisioning not configured")), st)
  create_invited h st org inv (some kc) =
      let (a, w) = kc.create_user st.outer org (invited_user inv) in
      grant h kc (record st { outer = w }) org inv a

  -- From the check of the status on; the clock is read only for a pending invitation.
  unfoldable pub accept_found : Handlers W → State W → Text → Invitation → Reply × State W
  unfolding create_invited
  accept_found h st org inv =
      if not (is_pending inv.status)
      then (reply 410 (message (lit "invitation expired or already used")), st)
      else if ltb inv.expires_at (now h st)
      then (reply 410 (message (lit "invitation expired or already used")), tick st)
      else create_invited h (tick st) org inv h.kc

  -- An absent token and a body that cannot be read are the empty text.
  unfoldable pub accept : Handlers W → State W → Text → Reply × State W
  unfolding parse_token get_by_token_hash accept_found
  accept h st [] = (reply 400 (message (lit "token required")), st)
  accept h st (b ∷ s) = elim (parse_token (b ∷ s)) [
    | none ↦ (reply 400 (message (lit "malformed token")), st)
    | some r ↦ elim (get_by_token_hash st.invitations r.0 (h.hash r.1)) [
      | none ↦ (reply 410 (message (lit "invitation invalid")), st)
      | some inv ↦ accept_found h st r.0 inv
    ]
  ]

pub data Request : Type 0 where
  creates : Option CreateReq → Request
  lists : Request
  revokes : Text → Request

module _ {W : Type 0} where
  unfoldable pub handle : Handlers W → State W → Text → Text → Request → Reply × State W
  unfolding create revoke
  handle h st org actor (creates req) = create h st org actor req
  handle h st org actor lists =
      (reply 200 (invitations_body (list_invitations st.invitations org)), st)
  handle h st org actor (revokes id) = revoke h st org actor id

  unfoldable pub admit : Handlers W → State W → Text → Request → Validated → Reply × State W
  unfolding handle
  admit h st org req (refused e) = (reply 401 (message (lit "invalid token")), st)
  admit h st org req (valid p) =
      if not (has_role p (lit "admin"))
      then (reply 403 (message (lit "admin role required")), st)
      else handle h st org p.user_id req

  -- The routes of one organization behind `requireOrgAdmin`.
  unfoldable pub serve :
      {Key : Type 0}
      → Jwt Key
      → JwtValidator Key
      → Text
      → Handlers W
      → State W
      → Text
      → Text
      → Request
      → Reply × State W
  unfolding admit
  serve lib v audience h st org authorization req = elim (bearer authorization) [
    | [] ↦ (reply 401 (message (lit "missing bearer token")), st)
    | a ∷ s ↦ admit h st org req (validate_for_org lib v (bearer authorization) org audience)
  ]
