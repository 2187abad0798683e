-- ===== src/Idp/Rest/Paths.antt =====
-- rest.go, brokering.go and directory.go: which realm the requests of a call are about.
use mcp_gateway_w.Prelude.{
  ◌≡◌, ◌≢◌, refl, sym, ap, ◌∙◌, inl, inr, Bool, [], ◌∷◌, ◌++◌, Option, none, some, Text, lit,
  nat_beq, Lacks, Bool-cases, append_left-injective,
}
use mathlib.Core.List.{append_assoc, append-nil}
use mcp_gateway_w.Idp.{Realm, Client, ProtocolMapper, User, Answer, ok, failed}
use mcp_gateway_w.Brokering.{IdentityProvider}
use mcp_gateway_w.Idp.Escape.{path_escape, path_escape-Lacks, path_escape-injective, IsBytes}
use mcp_gateway_w.Idp.Rest.{
  Body, Request, token_request, admin_request, Exchanged, no_answer, answer, Network, State,
  do_request,
}
use mcp_gateway_w.Idp.Rest.Sends.{Keeps, do_request-Keeps}
use mcp_gateway_w.Idp.Rest.Api.{
  realm_exists, update_realm, set_realm_enabled, delete_realm, create_client, add_protocol_mapper,
  create_realm_role, create_user, map_role, with_role, assign_realm_role, remove_realm_role,
  find_user_by_username, set_user_enabled, instances, upserted, provider_rep,
  upsert_identity_provider, delete_identity_provider,
}

-- The calls that are made on a realm that exists.
pub data Call : Type 0 where
  checks : Call
  updates : Realm → Call
  enables : Bool → Call
  deletes : Call
  creates_client : Client → Call
  adds_mapper : Text → ProtocolMapper → Call
  creates_role : Text → Call
  creates_user : User → Call
  assigns_role removes_role : Text → Text → Call
  finds_user : Text → Call
  enables_user : Text → Bool → Call
  upserts_provider : IdentityProvider → Call
  deletes_provider : Text → Call

-- What may follow a realm's segment in a path.
abbrev pub Ends : Text → Type 0
Ends [] = Unit
Ends (b ∷ s) = b ≡ b'/'

-- The request is for the realm or for something in it.
abbrev pub IsAbout : Text → Text → Request → Type 0
IsAbout base realm (token_request url id secret) = ⊥
IsAbout base realm (admin_request method url authorization body) =
    (rest : Text) × (url ≡ base ++ (lit "/admin/realms/" ++ (path_escape realm ++ rest)))
    × Ends rest

segment_unique :
    (s t u v : Text) → Lacks b'/' s → Lacks b'/' t → Ends u → Ends v → s ++ u ≡ t ++ v → s ≡ t
segment_unique [] [] u v hs ht p q e = refl
segment_unique [] (b ∷ t) [] v hs ht p q e = cc
segment_unique [] (b ∷ t) (a ∷ u) v hs ht p q e = absurd (ht.0 (cc))
segment_unique (a ∷ s) [] u [] hs ht p q e = cc
segment_unique (a ∷ s) [] u (b ∷ v) hs ht p q e = absurd (hs.0 (cc))
segment_unique (a ∷ s) (b ∷ t) u v hs ht p q e =
    let r = segment_unique s t u v hs.1 ht.1 p q (cc) in cc

IsAbout-unique :
    (base r r' : Text) (q : Request)
    → IsBytes r
    → IsBytes r'
    → IsAbout base r q
    → IsAbout base r' q
    → r ≡ r'
IsAbout-unique base r r' (token_request url id secret) p p' a b = elim a [ ]
IsAbout-unique base r r' (admin_request method url authorization body) p p' (u, e, h) (v, e', h') =
    let e1 = append_left-injective base _ _ (sym e ∙ e') in
    let e2 = append_left-injective (lit "/admin/realms/") _ _ e1 in
    path_escape-injective r r' p p' (
      segment_unique (path_escape r) (path_escape r') u v (path_escape-Lacks r)
        (path_escape-Lacks r') h h' e2)

-- A call on a realm.
pub run_call : {W : Type 0} → Network W → State W → Text → Call → State W
run_call net st realm checks = (realm_exists net st realm).1
run_call net st realm (updates r) = (update_realm net st (record r { name = realm })).1
run_call net st realm (enables b) = (set_realm_enabled net st realm b).1
run_call net st realm deletes = (delete_realm net st realm).1
run_call net st realm (creates_client c) = (create_client net st realm c).1
run_call net st realm (adds_mapper id m) = (add_protocol_mapper net st realm id m).1
run_call net st realm (creates_role role) = (create_realm_role net st realm role).1
run_call net st realm (creates_user u) = (create_user net st realm u).1
run_call net st realm (assigns_role id role) = (assign_realm_role net st realm id role).1
run_call net st realm (removes_role id role) = (remove_realm_role net st realm id role).1
run_call net st realm (finds_user username) = (find_user_by_username net st realm username).1
run_call net st realm (enables_user id b) = (set_user_enabled net st realm id b).1
run_call net st realm (upserts_provider p) = (upsert_identity_provider net st realm p).1
run_call net st realm (deletes_provider alias) = (delete_identity_provider net st realm alias).1

module _ {W : Type 0} (net : Network W) (base : Text) (realm other : Text) (bytes : IsBytes realm)
    (bytes' : IsBytes other) (apart : realm ≢ other) where
  -- The requests that are not about the other realm.
  abbrev pub Spares : Request → Type 0
  Spares q = ¬ IsAbout base other q

  abbrev pub Quiet : State W → Type 0
  Quiet st = Keeps Spares base st

  token-Spares : (url id secret : Text) → Spares (token_request url id secret)
  token-Spares url id secret a = a

  own-Spares :
      (method path authorization rest : Text) (body : Option Body)
      → path ≡ lit "/admin/realms/" ++ (path_escape realm ++ rest)
      → Ends rest
      → Spares (admin_request method (base ++ path) authorization body)
  own-Spares method path authorization rest body e h a = apart (
      IsAbout-unique base realm other (admin_request method (base ++ path) authorization body) bytes
        bytes' (rest, ap (λ (p : Text). base ++ p) e, h) a)

  own-Quiet :
      (st : State W) (method path rest : Text) (body : Option Body)
      → path ≡ lit "/admin/realms/" ++ (path_escape realm ++ rest)
      → Ends rest
      → Quiet st
      → Quiet (do_request net st method path body).1
  own-Quiet st method path rest body e h k =
      do_request-Keeps net Spares base token-Spares method path body
        (λ authorization. own-Spares method path authorization rest body e h) st k

  below-Quiet :
      (st : State W) (method rest : Text) (body : Option Body)
      → Ends rest
      → Quiet st
      → Quiet
          (do_request net st method ((lit "/admin/realms/" ++ path_escape realm) ++ rest) body).1
  below-Quiet st method rest body h k =
      own-Quiet st method ((lit "/admin/realms/" ++ path_escape realm) ++ rest) rest body refl h k

  realm-Quiet :
      (st : State W) (method : Text) (body : Option Body)
      → Quiet st
      → Quiet (do_request net st method (lit "/admin/realms/" ++ path_escape realm) body).1
  realm-Quiet st method body k =
      own-Quiet st method (lit "/admin/realms/" ++ path_escape realm) [] body
        (ap (λ (p : Text). lit "/admin/realms/" ++ p) (sym (append-nil (path_escape realm)))) tt k

  map_role-Quiet :
      (method op user_id : Text) (a : Answer (Text × Text)) (st : State W)
      → Quiet st
      → Quiet (map_role net method op realm user_id a st).1
  unfolding map_role
  map_role-Quiet method op user_id (failed msg) st k = k
  map_role-Quiet method op user_id (ok x) st k = below-Quiet st method _ _ refl k

  with_role-Quiet :
      (method op : Text) (st : State W) (user_id role : Text)
      → Quiet st
      → Quiet (with_role net method op st realm user_id role).1
  unfolding with_role
  with_role-Quiet method op st user_id role k =
      map_role-Quiet method op user_id _ _ (below-Quiet st (lit "GET") _ none refl k)

  instance-Quiet :
      (st : State W) (method alias : Text) (body : Option Body)
      → Quiet st
      → Quiet (do_request net st method (instances realm ++ (b'/' ∷ path_escape alias)) body).1
  instance-Quiet st method alias body k =
      own-Quiet st method (instances realm ++ (b'/' ∷ path_escape alias))
        (lit "/identity-provider/instances" ++ (b'/' ∷ path_escape alias)) body
        (append_assoc (lit "/admin/realms/" ++ path_escape realm)
          (lit "/identity-provider/instances") (b'/' ∷ path_escape alias))
        refl k

  upserted-Quiet :
      (p : IdentityProvider) (e : Exchanged) (st : State W)
      → Quiet st
      → Quiet (upserted net realm p e st).1
  unfolding upserted
  upserted-Quiet p (no_answer msg) st k = k
  upserted-Quiet p (answer r) st k = elim (Bool-cases (nat_beq r.status 201)) [
    | inl a ↦ rw a k
    | inr a ↦ elim (Bool-cases (nat_beq r.status 409)) [
      | inl b ↦ rw (a, b) (instance-Quiet st (lit "PUT") p.alias (some (provider_rep p)) k)
      | inr b ↦ rw (a, b) k
    ]
  ]

  -- A call on one realm sends no request that is for another realm or for anything in it, whatever
  -- the identity provider answers; names are texts of bytes.
  pub run_call-Isolates : (st : State W) (c : Call) → Quiet st → Quiet (run_call net st realm c)
  unfolding run_call realm_exists update_realm set_realm_enabled delete_realm create_client
      add_protocol_mapper create_realm_role create_user assign_realm_role remove_realm_role
      find_user_by_username set_user_enabled upsert_identity_provider delete_identity_provider
  run_call-Isolates st checks k = realm-Quiet st _ _ k
  run_call-Isolates st (updates r) k = realm-Quiet st _ _ k
  run_call-Isolates st (enables b) k = realm-Quiet st _ _ k
  run_call-Isolates st deletes k = realm-Quiet st _ _ k
  run_call-Isolates st (creates_client c) k = below-Quiet st _ _ _ refl k
  run_call-Isolates st (adds_mapper id m) k = below-Quiet st _ _ _ refl k
  run_call-Isolates st (creates_role role) k = below-Quiet st _ _ _ refl k
  run_call-Isolates st (creates_user u) k = below-Quiet st _ _ _ refl k
  run_call-Isolates st (assigns_role id role) k =
      with_role-Quiet (lit "POST") (lit "assign realm role") st id role k
  run_call-Isolates st (removes_role id role) k =
      with_role-Quiet (lit "DELETE") (lit "remove realm role") st id role k
  run_call-Isolates st (finds_user username) k = below-Quiet st _ _ _ refl k
  run_call-Isolates st (enables_user id b) k = below-Quiet st _ _ _ refl k
  run_call-Isolates st (upserts_provider p) k =
      let r = do_request net st (lit "POST") (instances realm) (some (provider_rep p)) in
      upserted-Quiet p r.0 r.1 (below-Quiet st _ _ _ refl k)
  run_call-Isolates st (deletes_provider alias) k = instance-Quiet st (lit "DELETE") alias none k
