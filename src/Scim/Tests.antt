-- ===== src/Scim/Tests.antt =====
-- The SCIM bridge on small inputs, and the theorems at concrete requests.
use mcp_gateway_w.Prelude.{
  ◌+◌, ◌≡◌, refl, Bool, true, false, List, [], ◌∷◌, ◌++◌, none, some, Text, lit, text_beq,
  if◌then◌else◌, ◌&&◌, ◌∙◌, equal_fold, trim_left, trim_right, trim_space,
}
use mcp_gateway_w.Prelude.Dict.{lookup, insert, erase}
use mcp_gateway_w.Idp.{ok}
use mcp_gateway_w.Invites.{new_token, cut_dot, parse_token}
use mcp_gateway_w.Scim.{
  Connection, upsert_connection, get_connection, delete_connection, touch_connection, Directory,
}
use mcp_gateway_w.Scim.Config.{
  Handlers, State, record_event, configure, rotate_found, rotate, disable, acts_for, denied,
  check_bearer, scim_auth,
}
use mcp_gateway_w.Scim.Users.{
  bool_value, text_value, scalar, object, truthy, Operation, sets_active, split_eq, has_prefix,
  contains_text, trim_quotes_left, trim_quotes_right, filter_user_name, apply_groups, touched,
  synced, upserted, user_created, user_found, create_user, apply_operations, patched, patch_user,
}
use mcp_gateway_w.Scim.Server.{patches_user, handle}
use mcp_gateway_w.Scim.Bearers.{IsBearer, scim_auth-IsBearer}
use mcp_gateway_w.Scim.Realm.{IsKept, Within, handle-Within}

runs : Unit {0}
unfolding text_beq equal_fold trim_left trim_right trim_space lookup insert erase new_token cut_dot
    parse_token upsert_connection get_connection delete_connection touch_connection record_event
    configure rotate_found rotate disable check_bearer scim_auth truthy sets_active split_eq
    has_prefix contains_text trim_quotes_left trim_quotes_right filter_user_name apply_groups
    touched synced upserted user_created user_found create_user apply_operations patched patch_user
    handle
runs = tt

-- The states are the users' flags, with the realm.
abbrev directory : Directory (List (Text × Text × Bool))
directory = record {
  find_user_by_username = λ w realm name. ok none;
  create_user = λ w realm u. (ok u.username, (realm, u.username, u.enabled) ∷ w);
  set_user_enabled = λ w realm id b. (none, (realm, id, b) ∷ w);
  assign_realm_role = λ w realm id role. (none, w);
  remove_realm_role = λ w realm id role. (none, w);
}

abbrev handlers : Handlers (List (Text × Text × Bool))
handlers = record {
  dir = some directory;
  audited = true;
  base_domain = lit "example.com";
  clock = λ n. n;
  hash = λ s. b'#' ∷ s;
  secret = λ n. (b'a' + n) ∷ [];
}

abbrev empty : State (List (Text × Text × Bool))
empty = record { outer = []; connections = []; events = []; readings = 0 }

abbrev configured : State (List (Text × Text × Bool))
configured = (configure handlers empty (lit "acme") (lit "op") []).1

filters : filter_user_name (lit "userName eq \"bob\"") ≡ lit "bob"
unfolding runs
filters = refl

accepted_now : scim_auth handlers configured (lit "acme.a") ≡ acts_for (lit "acme")
unfolding runs
accepted_now = refl

other_now : scim_auth handlers configured (lit "other.a") ≡ denied 401 (lit "invalid bearer")
unfolding runs
other_now = refl

scim_auth-IsBearer_example : IsBearer handlers configured.connections (lit "acme.a") (lit "acme")
scim_auth-IsBearer_example =
    scim_auth-IsBearer handlers configured (lit "acme.a") (lit "acme") accepted_now

abbrev after_rotation : State (List (Text × Text × Bool))
after_rotation = (rotate handlers configured (lit "acme") (lit "op")).1

abbrev first_connection : Connection
first_connection = record {
  org_id = lit "acme";
  bearer_hash = lit "#a";
  group_role_mappings = [];
  status = lit "active";
  created_at = 0;
  last_sync_at = none;
}

found_stored : get_connection configured.connections (lit "acme") ≡ some first_connection
unfolding runs
found_stored = refl

rotated_now : scim_auth handlers after_rotation (lit "acme.c") ≡ acts_for (lit "acme")
unfolding runs
rotated_now = refl

rotated_old : scim_auth handlers after_rotation (lit "acme.a") ≡ denied 401 (lit "invalid bearer")
unfolding runs
rotated_old = refl

abbrev off : Operation
off = record { op = lit "Replace"; path = []; value = object (some (bool_value false)) }

abbrev on : Operation
on = record { op = lit "replace"; path = lit "active"; value = scalar (text_value (lit "True")) }

deactivated :
    (handle handlers directory configured
      (lit "acme")
      (patches_user (lit "bob") (some (on ∷ off ∷ [])))).1.outer
    ≡ (lit "acme", lit "bob", false) ∷ (lit "acme", lit "bob", true) ∷ []
unfolding runs
deactivated = refl

-- What stands in the other realms.
abbrev of_realm : Text → List (Text × Text × Bool) → List (Text × Text × Bool)
of_realm realm [] = []
of_realm realm (u ∷ us) = if text_beq u.0 realm then u ∷ of_realm realm us else of_realm realm us

abbrev SameOther : List (Text × Text × Bool) → List (Text × Text × Bool) → Type 0
SameOther w w1 = of_realm (lit "other") w1 ≡ of_realm (lit "other") w

other_kept : IsKept directory (lit "acme") SameOther
unfolding runs
other_kept = record {
  same = λ w. refl;
  trans = λ u v w p q. q ∙ p;
  creates = λ w u. refl;
  sets = λ w id b. refl;
  assigns = λ w id role. refl;
}

handle-Within_example :
    Within SameOther
      (lit "acme")
      configured
      (handle handlers directory configured
        (lit "acme")
        (patches_user (lit "bob") (some (on ∷ off ∷ [])))).1
handle-Within_example =
    handle-Within handlers directory (lit "acme") SameOther other_kept configured
      (patches_user (lit "bob") (some (on ∷ off ∷ [])))

-- The newest flag of a user.
abbrev flag : List (Text × Text × Bool) → Text → Text → Bool
flag [] realm id = false
flag (u ∷ us) realm id = if text_beq u.0 realm && text_beq u.1 id then u.2 else flag us realm id

law :
    (w : List (Text × Text × Bool)) (b : Bool)
    → (directory.set_user_enabled w (lit "acme") (lit "bob") b).0 ≡ none
    → flag (directory.set_user_enabled w (lit "acme") (lit "bob") b).1 (lit "acme") (lit "bob") ≡ b
unfolding runs
law w b e = refl

sets_off : sets_active off ≡ some false
unfolding runs
sets_off = refl

patched_well :
    (patch_user handlers directory configured
      (lit "acme")
      (lit "bob")
      (some ((on ∷ []) ++ off ∷ []))).0.status
    ≡ 200
unfolding runs
patched_well = refl
