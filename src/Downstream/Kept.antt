-- ===== src/Downstream/Kept.antt =====
-- downstream.go: an instance that `GetForUser` gave a user is given again, whatever the user asks for in
-- between.
use mcp_gateway_w.Prelude.{
  ℕ, ◌≡◌, ◌⊎◌, refl, sym, ap, subst, ◌∙◌, inl, inr, Bool-cases, Option-cases, List, [], ◌∷◌, Option,
  none, some, Text, text_beq, text_eq_iff, eq_refl, arith,
}
use mcp_gateway_w.Prelude.Dict.{Dict, lookup, insert, lookup-insert, lookup-erase}
use mcp_gateway_w.Downstream.{
  Entry, Registry, new_registry, put_entry, add_scoped, add_provider, remove, drop_user, invalidate,
  ready, Answer, cached, set_users, find_in_entry, find_for_user, store_user, store_in_entry,
  store_built, get_for_user, can_access, instance_of, Op, adds_scoped, adds_provider, removes,
  invalidates, stores_built, step, run,
}

-- An entry with a provider has a map for the users' instances.
abbrev pub IsMapped : Registry → Type 0
IsMapped r =
    (s : Text) (e : Entry) → lookup s r.servers ≡ some e → e.users ≡ none → e.provider ≡ none

put_entry-IsMapped :
    (r : Registry) (slug : Text) (e : Entry)
    → (e.users ≡ none → e.provider ≡ none)
    → IsMapped r
    → IsMapped (put_entry r slug e).0
unfolding put_entry
put_entry-IsMapped r slug e g h s x q n = elim (Bool-cases (text_beq slug s)) [
  | inl y ↦
      let p : e ≡ x = ground (arith, y, q, lookup-insert slug s e r.servers) in
      ground (arith, p, n, g)
  | inr y ↦ h s x (ground (arith, y, q, lookup-insert slug s e r.servers)) n
]

remove-IsMapped : (r : Registry) (slug : Text) → IsMapped r → IsMapped (remove r slug).0
unfolding remove
remove-IsMapped r slug h s x q n = elim (Option-cases (lookup slug r.servers)) [
  | inl gone ↦ h s x (rw (gone, remove) at q) n
  | inr (e, was) ↦ h s x (ground (arith, was, q, lookup-erase slug s r.servers)) n
]

set_users-IsMapped :
    (r : Registry) (slug : Text) (e : Entry) (m : Dict ℕ)
    → IsMapped r
    → IsMapped (record r { servers = insert slug (record e { users = some m }) r.servers })
set_users-IsMapped r slug e m h s x q n = elim (Bool-cases (text_beq slug s)) [
  | inl y ↦
      absurd (ground (arith, y, q, n, lookup-insert slug s (record e { users = some m }) r.servers))
  | inr y ↦
      h s x (ground (arith, y, q, lookup-insert slug s (record e { users = some m }) r.servers)) n
]

invalidate-IsMapped :
    (r : Registry) (slug user : Text) → IsMapped r → IsMapped (invalidate r slug user).0
unfolding invalidate drop_user
invalidate-IsMapped r slug user h = elim (Option-cases (lookup slug r.servers)) [
  | inl gone ↦ rw (gone, invalidate) h
  | inr (e, was) ↦ elim (Option-cases e.users) [
    | inl fixed ↦ rw (was, fixed, invalidate) h
    | inr (m, has) ↦ elim (Bool-cases (text_beq user [])) [
      | inl everyone ↦ rw (was, has, everyone, invalidate) (set_users-IsMapped r slug e [] h)
      | inr one ↦ elim (Option-cases (lookup user m)) [
        | inl absent ↦ rw (was, has, one, absent, invalidate, drop_user) h
        | inr (i, held) ↦
            rw (was, has, one, held, invalidate, drop_user) (set_users-IsMapped r slug e _ h)
      ]
    ]
  ]
]

pub store_built-IsMapped :
    (r : Registry) (slug user : Text) (inst : ℕ)
    → IsMapped r
    → IsMapped (store_built r slug user inst).0
unfolding store_built store_in_entry store_user
store_built-IsMapped r slug user inst h = elim (Option-cases (lookup slug r.servers)) [
  | inl gone ↦ rw (gone, store_built) h
  | inr (e, was) ↦ elim (Option-cases e.provider) [
    | inl fixed ↦ rw (was, fixed, store_built, store_in_entry) h
    | inr (p, has) ↦ elim (Option-cases (cached e.users user)) [
      | inr (i, won) ↦ rw (was, has, won, store_built, store_in_entry) h
      | inl lost ↦ elim (Option-cases e.users) [
        | inl nil ↦ rw (was, has, lost, nil, store_built, store_in_entry, store_user) h
        | inr (m, map) ↦
            rw (was, has, lost, map, store_built, store_in_entry, store_user)
              (set_users-IsMapped r slug e _ h)
      ]
    ]
  ]
]

step-IsMapped : (r : Registry) (o : Op) → IsMapped r → IsMapped (step r o)
unfolding step add_scoped add_provider
step-IsMapped r (adds_scoped slug ds roles) h = put_entry-IsMapped r slug _ (λ n. refl) h
step-IsMapped r (adds_provider slug p roles) h = put_entry-IsMapped r slug _ (λ n. absurd (cc n)) h
step-IsMapped r (removes slug) h = remove-IsMapped r slug h
step-IsMapped r (invalidates slug user) h = invalidate-IsMapped r slug user h
step-IsMapped r (stores_built slug user inst) h = store_built-IsMapped r slug user inst h

run-IsMapped : (r : Registry) (os : List Op) → IsMapped r → IsMapped (run r os)
unfolding run
run-IsMapped r [] h = h
run-IsMapped r (o ∷ os) h = run-IsMapped (step r o) os (step-IsMapped r o h)

-- Whatever was done to a registry since it was made.
pub run_new-IsMapped : (os : List Op) → IsMapped (run new_registry os)
unfolding new_registry lookup
run_new-IsMapped os = run-IsMapped new_registry os (λ s e q n. absurd (cc q))

-- What `GetForUser` does: the registry stays, and an instance is one that was found; or one that was
-- built is kept for the user.
abbrev Got : Registry → Text → Text → Registry × Answer × List ℕ → Type 0
Got r slug user res =
    ((res.0 ≡ r) × ((i : ℕ) → res.1 ≡ instance_of i → find_for_user r slug user ≡ ready i))
    ⊎ ((e : Entry) × (m : Dict ℕ) × (inst : ℕ) × (lookup slug r.servers ≡ some e)
        × (e.users ≡ some m)
        × (e.ds ≡ none)
        × (lookup user m ≡ none)
        × (res.0 ≡ set_users r slug e (insert user inst m))
        × (res.1 ≡ instance_of inst))

module _ (r : Registry) (slug user : Text) where
  built-Got :
      (p inst : ℕ) (e : Entry)
      → IsMapped r
      → lookup slug r.servers ≡ some e
      → e.ds ≡ none
      → cached e.users user ≡ none
      → e.provider ≡ some p
      → Got r slug user (get_for_user r slug user (some inst))
  unfolding get_for_user find_for_user find_in_entry store_built store_in_entry store_user cached
  built-Got p inst e h was nil free has = elim (Option-cases e.users) [
    | inl none_kept ↦
        let q : e.provider ≡ none = h slug e was none_kept in absurd (ground (arith, q, has))
    | inr (m, kept) ↦
        let free' : lookup user m ≡ none = rw kept at free in
        inr (
          e,
          m,
          inst,
          was,
          kept,
          nil,
          free',
          ground (arith, was, nil, free', has, kept),
          ground (arith, was, nil, free', has, kept),
        )
  ]

  get_for_user-Got :
      (built : Option ℕ) → IsMapped r → Got r slug user (get_for_user r slug user built)
  unfolding get_for_user find_for_user find_in_entry
  get_for_user-Got built h = elim (Option-cases (lookup slug r.servers)) [
    | inl gone ↦ inl (ground (arith, gone), λ i q. absurd (ground (arith, gone, q)))
    | inr (e, was) ↦ elim (Option-cases e.ds) [
      | inr (j, fixed) ↦ inl (ground (arith, was, fixed), λ i q. ground (arith, was, fixed, q))
      | inl nil ↦ elim (Option-cases (cached e.users user)) [
        | inr (j, found) ↦
            inl (ground (arith, was, nil, found), λ i q. ground (arith, was, nil, found, q))
        | inl free ↦ elim (Option-cases e.provider) [
          | inl lacks ↦ inl (
            ground (arith, was, nil, free, lacks),
            λ i q. absurd (ground (arith, was, nil, free, lacks, q)),
          )
          | inr (p, has) ↦ elim (Option-cases built) [
            | inl fails ↦ inl (
              ground (arith, was, nil, free, has, fails),
              λ i q. absurd (ground (arith, was, nil, free, has, fails, q)),
            )
            | inr (inst, made) ↦
                subst (λ (o : Option ℕ). Got r slug user (get_for_user r slug user o)) (sym made)
                  (built-Got p inst e h was nil free has)
          ]
        ]
      ]
    ]
  ]

module _ (r : Registry) (slug user : Text) (built : Option ℕ) (h : IsMapped r) where
  pub get_for_user-IsMapped : IsMapped (get_for_user r slug user built).0
  get_for_user-IsMapped = elim (get_for_user-Got r slug user built h) [
    | inl (same, found) ↦ subst IsMapped (sym same) h
    | inr (e, m, inst, was, kept, nil, free, new, answer) ↦
        subst IsMapped (sym new) (set_users-IsMapped r slug e _ h)
  ]

  -- Nobody's access changes.
  pub get_for_user-can_access :
      (s : Text) (roles : List Text)
      → can_access (get_for_user r slug user built).0 s roles ≡ can_access r s roles
  unfolding can_access
  get_for_user-can_access s roles = elim (get_for_user-Got r slug user built h) [
    | inl (same, found) ↦ ap (λ (x : Registry). can_access x s roles) same
    | inr (e, m, inst, was, kept, nil, free, new, answer) ↦
        ap (λ (x : Registry). can_access x s roles) new
        ∙ ground (
          arith,
          was,
          text_eq_iff slug s,
          lookup-insert slug s (record e { users = some (insert user inst m) }) r.servers,
        )
  ]

  pub get_for_user-ready :
      (i : ℕ)
      → (get_for_user r slug user built).1 ≡ instance_of i
      → find_for_user (get_for_user r slug user built).0 slug user ≡ ready i
  unfolding find_for_user find_in_entry
  get_for_user-ready i q = elim (get_for_user-Got r slug user built h) [
    | inl (same, found) ↦ ap (λ (x : Registry). find_for_user x slug user) same ∙ found i q
    | inr (e, m, inst, was, kept, nil, free, new, answer) ↦
        let p : inst ≡ i = cc (answer, q) in
        ap (λ (x : Registry). find_for_user x slug user) new
        ∙ ground (
          arith,
          nil,
          p,
          eq_refl slug,
          eq_refl user,
          lookup-insert slug slug (record e { users = some (insert user inst m) }) r.servers,
          lookup-insert user user inst m,
        )
  ]

  pub get_for_user-keeps :
      (s : Text) (i : ℕ)
      → find_for_user r s user ≡ ready i
      → find_for_user (get_for_user r slug user built).0 s user ≡ ready i
  unfolding find_for_user find_in_entry
  get_for_user-keeps s i q = elim (get_for_user-Got r slug user built h) [
    | inl (same, found) ↦ ap (λ (x : Registry). find_for_user x s user) same ∙ q
    | inr (e, m, inst, was, kept, nil, free, new, answer) ↦
        ap (λ (x : Registry). find_for_user x s user) new
        ∙ ground (
          arith,
          q,
          was,
          kept,
          nil,
          free,
          text_eq_iff slug s,
          lookup-insert slug s (record e { users = some (insert user inst m) }) r.servers,
        )
  ]
