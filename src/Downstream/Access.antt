-- ===== src/Downstream/Access.antt =====
-- downstream.go: which servers a principal may see and use.
use mathlib.Core.List.{Memᴰ}
use mcp_gateway_w.Prelude.{
  ℕ, ◌+◌, ◌-◌, ◌<◌, ◌≡◌, ◌↔◌, refl, ap, inl, inr, ◌⊎◌, true, List, [], ◌∷◌, ◌++◌, Option, none,
  some, Text, text_beq, text_eq_iff, arith, Bool-cases, Option-cases, if◌then◌else◌,
}
use mcp_gateway_w.Prelude.Dict.{Dict, lookup, insert, erase, lookup-insert, lookup-erase}
use mcp_gateway_w.Downstream.{
  Entry, Registry, new_registry, put_entry, add_scoped, add_provider, drop_slug, remove, set_users,
  drop_user, invalidate, store_built, store_in_entry, store_user, contains, any_allowed,
  roles_allow, can_access, roles_of, visible_from, visible_slugs, cached, Op, adds_scoped,
  adds_provider, removes, invalidates, stores_built, step, run,
}

-- How often a slug stands in a list.
unfoldable pub occurrences : Text → List Text → ℕ
occurrences s [] = 0
occurrences s (x ∷ xs) = if text_beq x s then occurrences s xs + 1 else occurrences s xs

abbrev pub registered : Option Entry → ℕ
registered none = 0
registered (some e) = 1

-- `order` lists each registered slug once, and no other.
abbrev pub IsOrdered : Registry → Type 0
IsOrdered r = (s : Text) → occurrences s r.order ≡ registered (lookup s r.servers)

occurrences-append :
    (s : Text) (xs ys : List Text) → occurrences s (xs ++ ys) ≡ occurrences s xs + occurrences s ys
unfolding occurrences
occurrences-append s [] ys = omega arith
occurrences-append s (x ∷ xs) ys = ground (arith, occurrences-append s xs ys)

occurrences-drop_slug :
    (s slug : Text) (xs : List Text)
    → 0 < occurrences slug xs
    → occurrences s (drop_slug slug xs)
      ≡ (if text_beq slug s then occurrences s xs - 1 else occurrences s xs)
unfolding drop_slug occurrences
occurrences-drop_slug s slug [] h = absurd (omega arith)
occurrences-drop_slug s slug (x ∷ xs) h = ground (
  arith,
  text_eq_iff x slug,
  text_eq_iff x s,
  text_eq_iff slug s,
  occurrences-drop_slug s slug xs,
)

put_entry-IsOrdered :
    (r : Registry) (slug : Text) (e : Entry) → IsOrdered r → IsOrdered (put_entry r slug e).0
unfolding put_entry occurrences
put_entry-IsOrdered r slug e h s = ground (
  arith,
  h s,
  text_eq_iff slug s,
  lookup-insert slug s e r.servers,
  occurrences-append s r.order (slug ∷ []),
)

remove-IsOrdered : (r : Registry) (slug : Text) → IsOrdered r → IsOrdered (remove r slug).0
unfolding remove
remove-IsOrdered r slug h s = ground (
  arith,
  h s,
  h slug,
  text_eq_iff slug s,
  lookup-erase slug s r.servers,
  occurrences-drop_slug s slug r.order,
)

-- Writing the cached instances of a registered slug.
set_users-IsOrdered :
    (r : Registry) (slug : Text) (e : Entry) (m : Dict ℕ)
    → lookup slug r.servers ≡ some e
    → IsOrdered r
    → IsOrdered (set_users r slug e m)
set_users-IsOrdered r slug e m was h s =
    ground
      (arith, h s, text_eq_iff slug s, lookup-insert slug s (record e { users = some m }) r.servers)

invalidate-IsOrdered :
    (r : Registry) (slug user : Text) → IsOrdered r → IsOrdered (invalidate r slug user).0
unfolding invalidate drop_user
invalidate-IsOrdered r slug user h = elim (Option-cases (lookup slug r.servers)) [
  | inl gone ↦ rw (gone, invalidate) h
  | inr (e, was) ↦ elim (Option-cases e.users) [
    | inl fixed ↦ rw (was, fixed, invalidate) h
    | inr (m, has) ↦ elim (Bool-cases (text_beq user [])) [
      | inl everyone ↦ rw (was, has, everyone, invalidate) (set_users-IsOrdered r slug e [] was h)
      | inr one ↦ elim (Option-cases (lookup user m)) [
        | inl absent ↦ rw (was, has, one, absent, invalidate, drop_user) h
        | inr (i, held) ↦
            rw (was, has, one, held, invalidate, drop_user)
              (set_users-IsOrdered r slug e (erase user m) was h)
      ]
    ]
  ]
]

store_built-IsOrdered :
    (r : Registry) (slug user : Text) (inst : ℕ)
    → IsOrdered r
    → IsOrdered (store_built r slug user inst).0
unfolding store_built store_in_entry store_user
store_built-IsOrdered r slug user inst h = elim (Option-cases (lookup slug r.servers)) [
  | inl gone ↦ rw (gone, store_built) h
  | inr (e, was) ↦ elim (Option-cases e.provider) [
    | inl fixed ↦ rw (was, fixed, store_built, store_in_entry) h
    | inr (p, has) ↦ elim (Option-cases (cached e.users user)) [
      | inr (i, won) ↦ rw (was, has, won, store_built, store_in_entry) h
      | inl lost ↦ elim (Option-cases e.users) [
        | inl nil ↦ rw (was, has, lost, nil, store_built, store_in_entry, store_user) h
        | inr (m, map) ↦
            rw (was, has, lost, map, store_built, store_in_entry, store_user)
              (set_users-IsOrdered r slug e (insert user inst m) was h)
      ]
    ]
  ]
]

step-IsOrdered : (r : Registry) (o : Op) → IsOrdered r → IsOrdered (step r o)
unfolding step add_scoped add_provider
step-IsOrdered r (adds_scoped slug ds roles) h = put_entry-IsOrdered r slug _ h
step-IsOrdered r (adds_provider slug p roles) h = put_entry-IsOrdered r slug _ h
step-IsOrdered r (removes slug) h = remove-IsOrdered r slug h
step-IsOrdered r (invalidates slug user) h = invalidate-IsOrdered r slug user h
step-IsOrdered r (stores_built slug user inst) h = store_built-IsOrdered r slug user inst h

pub run-IsOrdered : (r : Registry) (os : List Op) → IsOrdered r → IsOrdered (run r os)
unfolding run
run-IsOrdered r [] h = h
run-IsOrdered r (o ∷ os) h = run-IsOrdered (step r o) os (step-IsOrdered r o h)

pub new_registry-IsOrdered : IsOrdered new_registry
unfolding new_registry occurrences lookup
new_registry-IsOrdered s = refl

visible_from-occurrences :
    (servers : Dict Entry) (order : List Text) (roles : List Text) (s : Text)
    → occurrences s (visible_from servers order roles)
      ≡ (if roles_allow (roles_of (lookup s servers)) roles then occurrences s order else 0)
unfolding visible_from occurrences
visible_from-occurrences servers [] roles s = ground arith
visible_from-occurrences servers (x ∷ xs) roles s =
    ground (arith, text_eq_iff x s, visible_from-occurrences servers xs roles s)

pub visible-IsOrdered :
    (r : Registry) (roles : List Text) (s : Text)
    → IsOrdered r
    → occurrences s (visible_slugs r roles) ≡ (if can_access r s roles then 1 else 0)
unfolding visible_slugs can_access
visible-IsOrdered r roles s h =
    ground (arith, visible_from-occurrences r.servers r.order roles s, h s)

-- After any interleaving of operations on a new registry, `VisibleSlugs` lists a slug once if the
-- principal may use it by `CanAccess`, and not at all otherwise.
pub visible-can_access :
    (os : List Op) (roles : List Text) (s : Text)
    → let r = run new_registry os in
      occurrences s (visible_slugs r roles) ≡ (if can_access r s roles then 1 else 0)
visible-can_access os roles s =
    visible-IsOrdered (run new_registry os) roles s
      (run-IsOrdered new_registry os new_registry-IsOrdered)

contains_sound : (hs : List Text) (a : Text) → contains hs a ≡ true → Memᴰ a hs
unfolding contains
contains_sound [] a e = absurd (cc)
contains_sound (h ∷ hs) a e = elim (Bool-cases (text_beq a h)) [
  | inl same ↦ Memᴰ.head ((text_eq_iff a h).0 same)
  | inr other ↦ Memᴰ.tail (contains_sound hs a (ground arith))
]

contains_complete : (hs : List Text) (a : Text) → Memᴰ a hs → contains hs a ≡ true
unfolding contains
contains_complete [] a m = elim m [ ]
contains_complete (h ∷ hs) a (Memᴰ.head e) = ground (arith, text_eq_iff a h)
contains_complete (h ∷ hs) a (Memᴰ.tail m) = ground (arith, contains_complete hs a m)

any_allowed_sound :
    (allowed hs : List Text)
    → any_allowed allowed hs ≡ true
    → (a : Text) × Memᴰ a allowed × Memᴰ a hs
unfolding any_allowed
any_allowed_sound [] hs e = absurd (cc)
any_allowed_sound (a ∷ more) hs e = elim (Bool-cases (contains hs a)) [
  | inl has ↦ (a, Memᴰ.head refl, contains_sound hs a has)
  | inr lacks ↦
      let (b, listed, held) = any_allowed_sound more hs (ground arith) in
      (b, Memᴰ.tail listed, held)
]

any_allowed_complete :
    (allowed hs : List Text) (a : Text) → Memᴰ a allowed → Memᴰ a hs → any_allowed allowed hs ≡ true
unfolding any_allowed
any_allowed_complete [] hs a m held = elim m [ ]
any_allowed_complete (b ∷ more) hs a (Memᴰ.head e) held =
    ground (arith, contains_complete hs a held, ap (contains hs) e)
any_allowed_complete (b ∷ more) hs a (Memᴰ.tail m) held =
    ground (arith, any_allowed_complete more hs a m held)

-- A server is allowed exactly if it names no roles or the principal has one of those it names.
roles_allow_iff :
    (allowed hs : List Text)
    → (roles_allow allowed hs ≡ true) ↔ ((allowed ≡ []) ⊎ ((a : Text) × Memᴰ a allowed × Memᴰ a hs))
unfolding roles_allow
roles_allow_iff [] hs = (λ e. inl refl, λ o. refl)
roles_allow_iff (b ∷ more) hs = (
  λ e. inr (any_allowed_sound (b ∷ more) hs e),
  elim [ inl e ↦ cc | inr (a, listed, held) ↦ any_allowed_complete (b ∷ more) hs a listed held ],
)
