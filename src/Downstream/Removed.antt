-- ===== src/Downstream/Removed.antt =====
-- downstream.go: what stays of a registry when a server is removed that a principal may not use.
use mcp_gateway_w.Prelude.{
  ℕ, ◌≤◌, ◌≡◌, ◌≢◌, refl, ap, ◌∙◌, inl, inr, false, Bool-cases, Option-cases, List, [], ◌∷◌, Option,
  none, some, Text, text_beq, text_eq_iff, eq_refl, arith,
}
use mcp_gateway_w.Prelude.Dict.{Dict, lookup, insert, erase, lookup-insert, lookup-erase}
use mcp_gateway_w.Downstream.{
  Entry, Registry, Found, ready, missing, to_build, answer_of, cached, drop_slug, remove,
  find_for_user, store_built, store_in_entry, store_user, get_for_user, can_access, roles_allow,
  roles_of, visible_from, visible_slugs,
}
use mcp_gateway_w.Downstream.Access.{IsOrdered, occurrences}

-- The same entries, but for the slug `x`.
abbrev pub IsSameBut : Text → Registry → Registry → Type 0
IsSameBut x r r' = (s : Text) → s ≢ x → lookup s r'.servers ≡ lookup s r.servers

pub remove-IsSameBut : (r : Registry) (x : Text) → IsSameBut x r (remove r x).0
unfolding remove
remove-IsSameBut r x s n = elim (Option-cases (lookup x r.servers)) [
  | inl gone ↦ rw (gone, remove) refl
  | inr (e, was) ↦ rw (was, remove) (ground (arith, n, text_eq_iff x s, lookup-erase x s r.servers))
]

pub remove-can_access :
    (r : Registry) (x : Text) (roles : List Text) → can_access (remove r x).0 x roles ≡ false
unfolding remove can_access
remove-can_access r x roles = ground (arith, eq_refl x, lookup-erase x x r.servers)

pub IsSameBut-can_access :
    (x : Text) (r r' : Registry) (s : Text) (roles : List Text)
    → IsSameBut x r r'
    → s ≢ x
    → can_access r' s roles ≡ can_access r s roles
unfolding can_access
IsSameBut-can_access x r r' s roles h n = rw (h s n, can_access) refl

visible_from-erased :
    (m : Dict Entry) (x : Text) (roles ss : List Text)
    → occurrences x ss ≡ 0
    → visible_from (erase x m) ss roles ≡ visible_from m ss roles
unfolding visible_from occurrences
visible_from-erased m x roles [] h = refl
visible_from-erased m x roles (s ∷ ss) h = elim (Bool-cases (text_beq s x)) [
  | inl y ↦ absurd (ground (arith, y, h))
  | inr y ↦
      let p : lookup s (erase x m) ≡ lookup s m =
        ground (arith, y, text_eq_iff s x, text_eq_iff x s, lookup-erase x s m) in
      rw p (ground (arith, visible_from-erased m x roles ss (ground (arith, y, h))))
]

visible_from-removed :
    (m : Dict Entry) (x : Text) (roles ss : List Text)
    → occurrences x ss ≤ 1
    → roles_allow (roles_of (lookup x m)) roles ≡ false
    → visible_from (erase x m) (drop_slug x ss) roles ≡ visible_from m ss roles
unfolding visible_from occurrences drop_slug
visible_from-removed m x roles [] h k = refl
visible_from-removed m x roles (s ∷ ss) h k = elim (Bool-cases (text_beq s x)) [
  | inl y ↦
      let e : s ≡ x = (text_eq_iff s x).0 y in
      let d : roles_allow (roles_of (lookup s m)) roles ≡ false =
        ap (λ z. roles_allow (roles_of (lookup z m)) roles) e ∙ k in
      rw (y, d) (visible_from-erased m x roles ss (ground (arith, y, h)))
  | inr y ↦
      let p : lookup s (erase x m) ≡ lookup s m =
        ground (arith, y, text_eq_iff s x, text_eq_iff x s, lookup-erase x s m) in
      let ih = visible_from-removed m x roles ss (ground (arith, y, h)) k in
      rw y (rw p (ground (arith, ih)))
]

pub visible_slugs-removed :
    (r : Registry) (x : Text) (roles : List Text)
    → IsOrdered r
    → can_access r x roles ≡ false
    → visible_slugs (remove r x).0 roles ≡ visible_slugs r roles
unfolding visible_slugs remove can_access
visible_slugs-removed r x roles h k = elim (Option-cases (lookup x r.servers)) [
  | inl gone ↦ rw (gone, remove) refl
  | inr (e, was) ↦
      rw (was, remove)
        (visible_from-removed r.servers x roles r.order (ground (arith, h x, was))
          (ground (arith, was, k)))
]

pub find-same :
    (x : Text) (r r' : Registry) (s user : Text)
    → IsSameBut x r r'
    → s ≢ x
    → find_for_user r' s user ≡ find_for_user r s user
unfolding find_for_user
find-same x r r' s user h n = rw (h s n, find_for_user) refl

-- A write of one entry on both sides.
insert-IsSameBut :
    (x : Text) (r r' : Registry) (s : Text) (e : Entry)
    → IsSameBut x r r'
    → IsSameBut x
        (record r { servers = insert s e r.servers })
        (record r' { servers = insert s e r'.servers })
insert-IsSameBut x r r' s e h k n =
    ground (arith, h k n, lookup-insert s k e r.servers, lookup-insert s k e r'.servers)

store_built-same :
    (x : Text) (r r' : Registry) (s user : Text) (inst : ℕ)
    → IsSameBut x r r'
    → s ≢ x
    → ((store_built r' s user inst).1 ≡ (store_built r s user inst).1)
      × IsSameBut x (store_built r s user inst).0 (store_built r' s user inst).0
unfolding store_built store_in_entry store_user
store_built-same x r r' s user inst h n =
    let p = h s n in
    elim (Option-cases (lookup s r.servers)) [
      | inl gone ↦ let gone' = p ∙ gone in rw (gone, gone', store_built) (refl, h)
      | inr (e, was) ↦
          let was' = p ∙ was in
          elim (Option-cases e.provider) [
            | inl fixed ↦ rw (was, was', fixed, store_built, store_in_entry) (refl, h)
            | inr (q, has) ↦ elim (Option-cases (cached e.users user)) [
              | inr (i, won) ↦ rw (was, was', has, won, store_built, store_in_entry) (refl, h)
              | inl lost ↦ elim (Option-cases e.users) [
                | inl nil ↦
                    rw (was, was', has, lost, nil, store_built, store_in_entry, store_user)
                      (refl, h)
                | inr (m, map) ↦
                    rw (was, was', has, lost, map, store_built, store_in_entry, store_user)
                      (refl, insert-IsSameBut x r r' s _ h)
              ]
            ]
          ]
    ]

get_for_user-found :
    (x : Text) (r r' : Registry) (s user : Text) (built : Option ℕ) (f : Found)
    → IsSameBut x r r'
    → s ≢ x
    → find_for_user r' s user ≡ find_for_user r s user
    → find_for_user r s user ≡ f
    → ((get_for_user r' s user built).1 ≡ (get_for_user r s user built).1)
      × IsSameBut x (get_for_user r s user built).0 (get_for_user r' s user built).0
unfolding get_for_user
get_for_user-found x r r' s user built (ready i) h n p q =
    let p' = p ∙ q in rw (q, p', get_for_user) (refl, h)
get_for_user-found x r r' s user built missing h n p q =
    let p' = p ∙ q in rw (q, p', get_for_user) (refl, h)
get_for_user-found x r r' s user none (to_build b) h n p q =
    let p' = p ∙ q in rw (q, p', get_for_user) (refl, h)
get_for_user-found x r r' s user (some inst) (to_build b) h n p q =
    let p' = p ∙ q in
    let (a, d) = store_built-same x r r' s user inst h n in
    rw (q, p', get_for_user) (ap answer_of a, d)

-- The same answer for another slug, and the registries still differ at `x` alone.
pub get_for_user-same :
    (x : Text) (r r' : Registry) (s user : Text) (built : Option ℕ)
    → IsSameBut x r r'
    → s ≢ x
    → ((get_for_user r' s user built).1 ≡ (get_for_user r s user built).1)
      × IsSameBut x (get_for_user r s user built).0 (get_for_user r' s user built).0
unfolding get_for_user
get_for_user-same x r r' s user built h n =
    get_for_user-found x r r' s user built (find_for_user r s user) h n
      (find-same x r r' s user h n) refl
