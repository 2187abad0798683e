-- ===== src/Invites.antt =====
-- services/control-plane/internal/invites: invitations, the in-memory store, the accept tokens. Times are nanoseconds.
pub mod Handlers
pub mod Tokens
mod Rows
mod Requests
mod Once
mod Tests
use mcp_gateway_w.Prelude.{
  ℕ, ◌+◌, ◌*◌, Bool, true, false, not, ◌&&◌, ◌||◌, List, [], ◌∷◌, ◌++◌, map, Option, none, some,
  Text, lit, text_beq, ltb, nat_beq, if◌then◌else◌, bearer,
}
use mcp_gateway_w.Prelude.Dict.{Dict, lookup, insert}
use mcp_gateway_w.Audit.{Event}
use mcp_gateway_w.Authz.{
  Principal, has_role, Jwt, JwtValidator, Validated, valid, refused, validate_for_org,
}
use mcp_gateway_w.Idp.{Keycloak, Answer, User}

pub data Status : Type 0 where
  pending : Status
  accepted : Status
  revoked : Status
  expired : Status

pub record Invitation : Type 0 where
  pub id : Text
  pub org_id : Text
  pub email : Text
  pub roles : List Text
  pub token_hash : Text
  pub status : Status
  pub expires_at : ℕ
  pub created_by : Text
  pub created_at : ℕ
  pub accepted_at : Option ℕ

unfoldable pub of_org : Text → Dict Invitation → List Invitation
of_org org [] = []
of_org org ((k, inv) ∷ m) = if text_beq inv.org_id org then inv ∷ of_org org m else of_org org m

insert_by_created : Invitation → List Invitation → List Invitation
insert_by_created i [] = i ∷ []
insert_by_created i (j ∷ js) =
    if ltb j.created_at i.created_at then j ∷ insert_by_created i js else i ∷ j ∷ js

sort_by_created : List Invitation → List Invitation
unfolding insert_by_created
sort_by_created [] = []
sort_by_created (i ∷ is) = insert_by_created i (sort_by_created is)

unfoldable pub list_invitations : Dict Invitation → Text → List Invitation
unfolding of_org sort_by_created
list_invitations m org = sort_by_created (of_org org m)

unfoldable pub get_invitation : Dict Invitation → Text → Text → Option Invitation
get_invitation m org id = elim (lookup id m) [
  | none ↦ none
  | some inv ↦ if text_beq inv.org_id org then some inv else none
]

unfoldable pub get_by_token_hash : Dict Invitation → Text → Text → Option Invitation
get_by_token_hash [] org h = none
get_by_token_hash ((k, inv) ∷ m) org h =
    if text_beq inv.org_id org && text_beq inv.token_hash h
    then some inv
    else get_by_token_hash m org h

-- `Update`, whose error both callers drop.
unfoldable pub update_invitation : Dict Invitation → Invitation → Dict Invitation
update_invitation m inv = elim (lookup inv.id m) [ none ↦ m | some _ ↦ insert inv.id inv m ]

unfoldable pub new_token : Text → Text → Text
new_token org secret = org ++ (b'.' ∷ secret)

-- The text up to the first dot and that after it.
unfoldable pub cut_dot : Text → Option (Text × Text)
cut_dot [] = none
cut_dot (b ∷ s) =
    let rest = cut_dot s in
    if nat_beq b b'.'
    then some ([], s)
    else elim rest [ none ↦ none | some r ↦ some (b ∷ r.0, r.1) ]

abbrev both : Text × Text → Option (Text × Text)
both ([], secret) = none
both (a ∷ org, []) = none
both (a ∷ org, b ∷ secret) = some (a ∷ org, b ∷ secret)

unfoldable pub parse_token : Text → Option (Text × Text)
unfolding cut_dot
parse_token raw = elim (cut_dot raw) [ none ↦ none | some r ↦ both r ]
