-- ===== src/Scim/Users.antt =====
-- services/control-plane/internal/scimbridge/server.go: the users that a directory pushes. Of the JSON
-- value of a patch only what the code reads is kept: a boolean, a text, or an object with the value of
-- its member `active`, if it has one.
use mcp_gateway_w.Prelude.{
  ℕ, Bool, true, false, not, ◌||◌, ◌&&◌, List, [], ◌∷◌, map, Option, none, some, Text, lit, nat_beq,
  if◌then◌else◌, is_empty, equal_fold, to_lower, trim_space,
}
use mcp_gateway_w.Prelude.Dict.{Dict, lookup}
use mcp_gateway_w.Idp.{User, Answer, ok, failed}
use mcp_gateway_w.Scim.{Connection, get_connection, touch_connection, Directory}
use mcp_gateway_w.Scim.Config.{
  Handlers, State, Reply, reply, scim_error, user_body, patched_body, users_body, now, tick,
  record_event,
}

pub record ScimUser : Type 0 where
  pub user_name : Text
  pub active : Option Bool
  pub emails : List Text
  pub groups : List Text

abbrev email : ScimUser → Text
email u = elim u.emails [ [] ↦ u.user_name | e ∷ es ↦ e ]

abbrev pub active_or_true : ScimUser → Bool
active_or_true u = elim u.active [ none ↦ true | some b ↦ b ]

pub data Scalar : Type 0 where
  bool_value : Bool → Scalar
  text_value : Text → Scalar
  other_value : Scalar

pub data Value : Type 0 where
  scalar : Scalar → Value
  object : Option Scalar → Value

unfoldable pub truthy : Scalar → Bool
unfolding equal_fold
truthy (bool_value b) = b
truthy (text_value s) = equal_fold s (lit "true")
truthy other_value = false

-- An object is none of the kinds that `truthy` reads.
abbrev truthy_value : Value → Bool
truthy_value (scalar x) = truthy x
truthy_value (object m) = false

pub record Operation : Type 0 where
  pub op : Text
  pub path : Text
  pub value : Value

-- What an operation sets the user's enabled flag to, if it does.
unfoldable pub sets_active : Operation → Option Bool
unfolding truthy equal_fold
sets_active o =
    if not (equal_fold o.op (lit "replace"))
    then none
    else if equal_fold o.path (lit "active")
    then some (truthy_value o.value)
    else elim o.value [
      | scalar x ↦ none
      | object m ↦ elim m [ none ↦ none | some x ↦ some (truthy x) ]
    ]

-- `strings.SplitN(s, "eq", 2)`, where it gives two parts.
unfoldable pub split_eq : Text → Option (Text × Text)
split_eq [] = none
split_eq (a ∷ []) = none
split_eq (a ∷ b ∷ s) =
    let rest = split_eq (b ∷ s) in
    if nat_beq a b'e' && nat_beq b b'q'
    then some ([], s)
    else elim rest [ none ↦ none | some r ↦ some (a ∷ r.0, r.1) ]

unfoldable pub has_prefix : Text → Text → Bool
has_prefix [] s = true
has_prefix (_ ∷ _) [] = false
has_prefix (a ∷ p) (b ∷ s) = nat_beq a b && has_prefix p s

unfoldable pub contains_text : Text → Text → Bool
unfolding has_prefix
contains_text [] p = has_prefix p []
contains_text (b ∷ s) p = has_prefix p (b ∷ s) || contains_text s p

abbrev quote : ℕ
quote = 34

unfoldable pub trim_quotes_left : Text → Text
trim_quotes_left [] = []
trim_quotes_left (b ∷ s) = if nat_beq b quote then trim_quotes_left s else b ∷ s

unfoldable pub trim_quotes_right : Text → Text
trim_quotes_right [] = []
trim_quotes_right (b ∷ s) =
    let rest = trim_quotes_right s in
    elim rest [ [] ↦ if nat_beq b quote then [] else b ∷ [] | c ∷ t ↦ b ∷ c ∷ t ]

unfoldable pub filter_user_name : Text → Text
unfolding split_eq contains_text trim_space trim_quotes_left trim_quotes_right
filter_user_name filter = elim (split_eq filter) [
  | none ↦ []
  | some r ↦
      if contains_text (map to_lower r.0) (lit "username")
      then trim_quotes_right (trim_quotes_left (trim_space r.1))
      else []
]

module _ {W : Type 0} (h : Handlers W) (dir : Directory W) where
  abbrev mappings_of : Option Connection → Dict Text
  mappings_of none = []
  mappings_of (some c) = c.group_role_mappings

  unfoldable pub apply_groups : List Text → W → Text → Text → Dict Text → W
  unfolding lookup
  apply_groups [] w org id mappings = w
  apply_groups (g ∷ gs) w org id mappings = elim (lookup g mappings) [
    | none ↦ apply_groups gs w org id mappings
    | some role ↦ apply_groups gs (dir.assign_realm_role w org id role).1 org id mappings
  ]

  -- `Touch`, whose error the callers drop.
  unfoldable pub touched : State W → Text → State W
  unfolding touch_connection
  touched st org = record (tick st) {
    connections = (touch_connection st.connections org (now h st)).1;
  }

  -- The groups of a user are applied and the synchronization noted.
  unfoldable pub synced : State W → W → Text → Text → List Text → State W
  unfolding apply_groups touched get_connection
  synced st w org id groups =
      let mappings = mappings_of (get_connection st.connections org) in
      touched (record st { outer = apply_groups groups w org id mappings }) org

  unfoldable pub upserted : State W → W → Text → Text → ScimUser → Reply × State W
  unfolding synced record_event
  upserted st w org id u = (
    reply 201 (user_body id u.user_name (active_or_true u)),
    record_event h (synced st w org id u.groups) org (lit "scim") (lit "directory_sync.user.upsert")
        u.user_name,
  )

  abbrev new_user : ScimUser → User
  new_user u = record {
    username = u.user_name;
    email = email u;
    enabled = active_or_true u;
    required_actions = [];
  }

  -- After the user was created, or was not.
  unfoldable pub user_created : State W → Text → ScimUser → Answer Text × W → Reply × State W
  unfolding upserted
  user_created st org u (failed msg, w) =
      (reply 502 (scim_error (lit "create user failed")), record st { outer = w })
  user_created st org u (ok id, w) = upserted st w org id u

  -- After the user was looked for.
  unfoldable pub user_found : State W → Text → ScimUser → Answer (Option Text) → Reply × State W
  unfolding user_created upserted
  user_found st org u (failed msg) = (reply 502 (scim_error (lit "directory error")), st)
  user_found st org u (ok none) = user_created st org u (dir.create_user st.outer org (new_user u))
  user_found st org u (ok (some id)) =
      upserted st (dir.set_user_enabled st.outer org id (active_or_true u)).1 org id u

  -- `none` is a body that cannot be read.
  unfoldable pub create_user : State W → Text → Option ScimUser → Reply × State W
  unfolding user_found
  create_user st org none = (reply 400 (scim_error (lit "userName required")), st)
  create_user st org (some u) =
      if is_empty u.user_name
      then (reply 400 (scim_error (lit "userName required")), st)
      else user_found st org u (dir.find_user_by_username st.outer org u.user_name)

  unfoldable pub replace_user : State W → Text → Text → Option ScimUser → Reply × State W
  unfolding synced
  replace_user st org id none = (reply 400 (scim_error (lit "invalid body")), st)
  replace_user st org id (some u) =
      let w = (dir.set_user_enabled st.outer org id (active_or_true u)).1 in
      (reply 200 (user_body id u.user_name (active_or_true u)), synced st w org id u.groups)

  -- The loop over the operations, up to the first error.
  unfoldable pub apply_operations : List Operation → W → Text → Text → Bool × W
  unfolding sets_active
  apply_operations [] w org id = (true, w)
  apply_operations (o ∷ os) w org id = elim (sets_active o) [
    | none ↦ apply_operations os w org id
    | some b ↦
        let (e, w1) = dir.set_user_enabled w org id b in
        elim e [ none ↦ apply_operations os w1 org id | some msg ↦ (false, w1) ]
  ]

  unfoldable pub patched : State W → Text → Text → Bool × W → Reply × State W
  unfolding touched record_event
  patched st org id (false, w) =
      (reply 502 (scim_error (lit "set enabled failed")), record st { outer = w })
  patched st org id (true, w) = (
    reply 200 (patched_body id),
    record_event h (touched (record st { outer = w }) org) org (lit "scim")
        (lit "directory_sync.user.patch") id,
  )

  unfoldable pub patch_user : State W → Text → Text → Option (List Operation) → Reply × State W
  unfolding apply_operations patched
  patch_user st org id none = (reply 400 (scim_error (lit "invalid patch")), st)
  patch_user st org id (some os) = patched st org id (apply_operations os st.outer org id)

  abbrev resources : Text → Answer (Option Text) → List (Text × Text)
  resources name (failed msg) = []
  resources name (ok none) = []
  resources name (ok (some id)) = (id, name) ∷ []

  unfoldable pub query_users : State W → Text → Text → Reply
  unfolding filter_user_name
  query_users st org filter =
      let name = filter_user_name filter in
      let found = resources name (dir.find_user_by_username st.outer org name) in
      reply 200 (users_body (if is_empty name then [] else found))
