-- ===== src/Scim/Realm.antt =====
-- scimbridge/server.go: what a request of the directory may touch.
use mcp_gateway_w.Prelude.{
  ℕ, ◌≡◌, refl, ap, ◌∙◌, inl, inr, Bool, true, false, Bool-cases, Option-cases, List, [], ◌∷◌, ◌++◌,
  Option, none, some, Text, text_beq, arith, is_empty,
}
use mcp_gateway_w.Prelude.Dict.{Dict, lookup, lookup-insert}
use mcp_gateway_w.Idp.{User, Answer, ok, failed}
use mcp_gateway_w.Scim.{Connection, touch_connection, Directory}
use mcp_gateway_w.Scim.Config.{Handlers, State, record_event}
use mcp_gateway_w.Scim.Users.{
  ScimUser, Operation, sets_active, apply_groups, touched, synced, upserted, user_created,
  user_found, create_user, replace_user, apply_operations, patched, patch_user,
}
use mcp_gateway_w.Scim.Server.{
  Request, creates_user, queries_users, replaces_user, patches_user, handle,
}

-- A relation between the directory's states that every write to one realm keeps.
pub record IsKept {W : Type 0} (dir : Directory W) (org : Text) (R : W → W → Type 0) : Type 0 where
  pub same : (w : W) → R w w
  pub trans : (u v w : W) → R u v → R v w → R u w
  pub creates : (w : W) (u : User) → R w (dir.create_user w org u).1
  pub sets : (w : W) (id : Text) (b : Bool) → R w (dir.set_user_enabled w org id b).1
  pub assigns : (w : W) (id role : Text) → R w (dir.assign_realm_role w org id role).1

abbrev pub KeepsOthers : Text → Dict Connection → Dict Connection → Type 0
KeepsOthers org m m' =
    (other : Text) → text_beq org other ≡ false → lookup other m' ≡ lookup other m

abbrev pub Within : {W : Type 0} → (W → W → Type 0) → Text → State W → State W → Type 0
Within R org st st1 = R st.outer st1.outer × KeepsOthers org st.connections st1.connections

module _ {W : Type 0} (h : Handlers W) (dir : Directory W) (org : Text) (R : W → W → Type 0)
    (k : IsKept dir org R) where
  Within-record_event :
      (st st1 : State W) (actor action target : Text)
      → Within R org st st1
      → Within R org st (record_event h st1 org actor action target)
  unfolding record_event
  Within-record_event st st1 actor action target i = elim (Bool-cases h.audited) [
    | inl e ↦ rw e i
    | inr e ↦ rw e i
  ]

  touch_connection-KeepsOthers :
      (m : Dict Connection) (t : ℕ) → KeepsOthers org m (touch_connection m org t).1
  unfolding touch_connection
  touch_connection-KeepsOthers m t other ne = elim (Option-cases (lookup org m)) [
    | inl e ↦ ground (arith, e)
    | inr (c, e) ↦
        ground (arith, e, ne, lookup-insert org other (record c { last_sync_at = some t }) m)
  ]

  apply_groups-kept :
      (gs : List Text) (w : W) (id : Text) (m : Dict Text) → R w (apply_groups h dir gs w org id m)
  unfolding apply_groups
  apply_groups-kept [] w id m = k.same w
  apply_groups-kept (g ∷ gs) w id m = elim (Option-cases (lookup g m)) [
    | inl e ↦ rw (e, apply_groups) (apply_groups-kept gs w id m)
    | inr (role, e) ↦
        rw (e, apply_groups)
          (k.trans w _ _ (k.assigns w id role)
            (apply_groups-kept gs (dir.assign_realm_role w org id role).1 id m))
  ]

  synced-Within :
      (st : State W) (w : W) (id : Text) (gs : List Text)
      → R st.outer w
      → Within R org st (synced h dir st w org id gs)
  unfolding synced touched
  synced-Within st w id gs r = (
    k.trans st.outer w _ r (apply_groups-kept gs w id _),
    touch_connection-KeepsOthers st.connections (h.clock st.readings),
  )

  upserted-Within :
      (st : State W) (w : W) (id : Text) (u : ScimUser)
      → R st.outer w
      → Within R org st (upserted h dir st w org id u).1
  unfolding upserted
  upserted-Within st w id u r =
      Within-record_event st (synced h dir st w org id u.groups) _ _ u.user_name
        (synced-Within st w id u.groups r)

  user_created-Within :
      (st : State W) (u : ScimUser) (a : Answer Text) (w : W)
      → R st.outer w
      → Within R org st (user_created h dir st org u (a, w)).1
  unfolding user_created
  user_created-Within st u (failed msg) w r = (r, λ other ne. refl)
  user_created-Within st u (ok id) w r = upserted-Within st w id u r

  user_found-Within :
      (st : State W) (u : ScimUser) (a : Answer (Option Text))
      → Within R org st (user_found h dir st org u a).1
  unfolding user_found
  user_found-Within st u (failed msg) = (k.same st.outer, λ other ne. refl)
  user_found-Within st u (ok none) = user_created-Within st u _ _ (k.creates st.outer _)
  user_found-Within st u (ok (some id)) = upserted-Within st _ id u (k.sets st.outer id _)

  create_user-Within :
      (st : State W) (u : Option ScimUser) → Within R org st (create_user h dir st org u).1
  unfolding create_user
  create_user-Within st none = (k.same st.outer, λ other ne. refl)
  create_user-Within st (some u) = elim (Bool-cases (is_empty u.user_name)) [
    | inl e ↦ rw e (k.same st.outer, λ other ne. refl)
    | inr e ↦ rw e (user_found-Within st u (dir.find_user_by_username st.outer org u.user_name))
  ]

  apply_operations-kept :
      (os : List Operation) (w : W) (id : Text) → R w (apply_operations h dir os w org id).1
  unfolding apply_operations
  apply_operations-kept [] w id = k.same w
  apply_operations-kept (o ∷ os) w id = elim (Option-cases (sets_active o)) [
    | inl e ↦ rw (e, apply_operations) (apply_operations-kept os w id)
    | inr (b, e) ↦ elim (Option-cases (dir.set_user_enabled w org id b).0) [
      | inl f ↦
          rw (e, f, apply_operations)
            ((k.trans w _ _ (k.sets w id b)
              (apply_operations-kept os (dir.set_user_enabled w org id b).1 id)))
      | inr (msg, f) ↦ rw (e, f, apply_operations) (k.sets w id b)
    ]
  ]

  patched-Within :
      (st : State W) (id : Text) (b : Bool) (w : W)
      → R st.outer w
      → Within R org st (patched h dir st org id (b, w)).1
  unfolding patched touched
  patched-Within st id false w r = (r, λ other ne. refl)
  patched-Within st id true w r =
      Within-record_event st (touched h dir (record st { outer = w }) org) _ _ id
        (r, touch_connection-KeepsOthers st.connections (h.clock st.readings))

  -- A request that acts for an organization changes the directory only by writes to this
  -- organization's realm, so that it keeps whatever these keep, and no other organization's
  -- connection.
  pub handle-Within : (st : State W) (req : Request) → Within R org st (handle h dir st org req).1
  unfolding handle replace_user patch_user
  handle-Within st (creates_user u) = create_user-Within st u
  handle-Within st (queries_users filter) = (k.same st.outer, λ other ne. refl)
  handle-Within st (replaces_user id none) = (k.same st.outer, λ other ne. refl)
  handle-Within st (replaces_user id (some u)) =
      synced-Within st _ id u.groups (k.sets st.outer id _)
  handle-Within st (patches_user id none) = (k.same st.outer, λ other ne. refl)
  handle-Within st (patches_user id (some os)) =
      patched-Within st id _ _ (apply_operations-kept os st.outer id)

module _ {W : Type 0} (h : Handlers W) (dir : Directory W) (enabled : W → Text → Text → Bool) where
  apply_operations-last :
      (os : List Operation) (o : Operation) (w : W) (org id : Text) (b : Bool)
      → ((w : W) (b : Bool)
          → (dir.set_user_enabled w org id b).0 ≡ none
          → enabled (dir.set_user_enabled w org id b).1 org id ≡ b)
      → sets_active o ≡ some b
      → (apply_operations h dir (os ++ o ∷ []) w org id).0 ≡ true
      → enabled (apply_operations h dir (os ++ o ∷ []) w org id).1 org id ≡ b
  unfolding apply_operations
  apply_operations-last [] o w org id b law s t =
      elim (Option-cases (dir.set_user_enabled w org id b).0) [
        | inl f ↦ rw (s, f, apply_operations) (law w b f)
        | inr (msg, f) ↦ absurd (ground (arith, s, f, t))
      ]
  apply_operations-last (q ∷ os) o w org id b law s t = elim (Option-cases (sets_active q)) [
    | inl e ↦
        rw (e, apply_operations)
          (apply_operations-last os o w org id b law s (ground (arith, e, t)))
    | inr (c, e) ↦ elim (Option-cases (dir.set_user_enabled w org id c).0) [
      | inl f ↦
          rw (e, f, apply_operations)
            (apply_operations-last os o (dir.set_user_enabled w org id c).1 org id b law s
              (ground (arith, e, f, t)))
      | inr (msg, f) ↦ absurd (ground (arith, e, f, t))
    ]
  ]

  patched-status :
      (st : State W) (org id : Text) (r : Bool × W)
      → (patched h dir st org id r).0.status ≡ 200
      → (r.0 ≡ true) × ((patched h dir st org id r).1.outer ≡ r.1)
  unfolding patched touched record_event
  patched-status st org id (false, w) e = absurd (ground (arith, e))
  patched-status st org id (true, w) e =
      (refl, elim (Bool-cases h.audited) [ inl a ↦ rw a refl | inr a ↦ rw a refl ])

  -- A patch that is answered with success and whose last operation sets the user's `active` leaves the
  -- user enabled or disabled as that operation says, whatever the others were. The directory is one in
  -- which a successful write of the flag is read back.
  patch_user-last :
      (st : State W) (org id : Text) (os : List Operation) (o : Operation) (b : Bool)
      → ((w : W) (b : Bool)
          → (dir.set_user_enabled w org id b).0 ≡ none
          → enabled (dir.set_user_enabled w org id b).1 org id ≡ b)
      → sets_active o ≡ some b
      → (patch_user h dir st org id (some (os ++ o ∷ []))).0.status ≡ 200
      → enabled (patch_user h dir st org id (some (os ++ o ∷ []))).1.outer org id ≡ b
  unfolding patch_user
  patch_user-last st org id os o b law s e =
      let r = apply_operations h dir (os ++ o ∷ []) st.outer org id in
      let (t, kept) = patched-status st org id r e in
      ap (λ w. enabled w org id) kept ∙ apply_operations-last os o st.outer org id b law s t
