-- ===== src/Downstream.antt =====
-- services/gateway/internal/downstream/downstream.go: the downstream servers of each organization.
-- A downstream instance and a provider are known by their identities, numbers. Building an instance
-- runs outside the lock, so `GetForUser` is two steps, `find_for_user` and `store_built`, between
-- which other calls may run; what the provider answers is an argument. An operation gives what it
-- closes with its result. Fixed entries have a nil `users` map.
pub mod Access
pub mod Cache
pub mod Kept
pub mod Removed
mod Tests
use mcp_gateway_w.Prelude.{
  ℕ, Bool, true, false, List, [], ◌∷◌, ◌++◌, map, Option, none, some, Text, text_beq, if◌then◌else◌,
}
use mcp_gateway_w.Prelude.Dict.{Dict, lookup, insert, erase}

pub record Entry : Type 0 where
  pub ds : Option ℕ
  pub provider : Option ℕ
  pub users : Option (Dict ℕ)
  pub roles : List Text

pub record Registry : Type 0 where
  pub servers : Dict Entry
  pub order : List Text

unfoldable pub new_registry : Registry
new_registry = record { servers = []; order = [] }

abbrev opt_list : Option ℕ → List ℕ
opt_list none = []
opt_list (some i) = i ∷ []

abbrev values : Option (Dict ℕ) → List ℕ
values none = []
values (some m) = map (λ kv. kv.1) m

-- What `closeEntry` closes.
unfoldable pub close_entry : Entry → List ℕ
close_entry e = opt_list e.ds ++ values e.users

unfoldable pub close_old : Option Entry → List ℕ
close_old none = []
close_old (some old) = close_entry old

-- The common part of `AddScoped` and `AddProvider`.
unfoldable pub put_entry : Registry → Text → Entry → Registry × List ℕ
unfolding close_old close_entry
put_entry r slug e =
    let old = lookup slug r.servers in
    (
      record {
        servers = insert slug e r.servers;
        order = elim old [ none ↦ r.order ++ slug ∷ [] | some _ ↦ r.order ];
      },
      close_old old,
    )

unfoldable pub add_scoped : Registry → Text → ℕ → List Text → Registry × List ℕ
unfolding put_entry
add_scoped r slug ds roles =
    put_entry r slug (record { ds = some ds; provider = none; users = none; roles = roles })

pub add : Registry → Text → ℕ → Registry × List ℕ
unfolding add_scoped
add r slug ds = add_scoped r slug ds []

unfoldable pub add_provider : Registry → Text → ℕ → List Text → Registry × List ℕ
unfolding put_entry
add_provider r slug p roles =
    put_entry r slug (record { ds = none; provider = some p; users = some []; roles = roles })

-- The loop of `Remove` over `order`: the first occurrence goes.
unfoldable pub drop_slug : Text → List Text → List Text
drop_slug slug [] = []
drop_slug slug (s ∷ ss) = if text_beq s slug then ss else s ∷ drop_slug slug ss

unfoldable pub remove : Registry → Text → Registry × List ℕ
unfolding close_entry drop_slug
remove r slug = elim (lookup slug r.servers) [
  | none ↦ (r, [])
  | some e ↦
      (record { servers = erase slug r.servers; order = drop_slug slug r.order }, close_entry e)
]

abbrev pub set_users : Registry → Text → Entry → Dict ℕ → Registry
set_users r slug e m = record r { servers = insert slug (record e { users = some m }) r.servers }

unfoldable pub drop_user : Registry → Text → Entry → Dict ℕ → Text → Registry × List ℕ
drop_user r slug e m user = elim (lookup user m) [
  | none ↦ (r, [])
  | some i ↦ (set_users r slug e (erase user m), i ∷ [])
]

unfoldable pub invalidate : Registry → Text → Text → Registry × List ℕ
unfolding drop_user
invalidate r slug user = elim (lookup slug r.servers) [
  | none ↦ (r, [])
  | some e ↦ elim e.users [
    | none ↦ (r, [])
    | some m ↦
        if text_beq user []
        then (set_users r slug e [], values (some m))
        else drop_user r slug e m user
  ]
]

-- `Get`: the fixed instance, or nil for a per-user entry.
pub get : Registry → Text → Option (Option ℕ)
get r slug = elim (lookup slug r.servers) [ none ↦ none | some e ↦ some e.ds ]

pub cached : Option (Dict ℕ) → Text → Option ℕ
cached none user = none
cached (some m) user = lookup user m

pub data Found : Type 0 where
  ready : ℕ → Found
  to_build : ℕ → Found
  missing : Found

unfoldable pub find_in_entry : Entry → Text → Found
unfolding cached
find_in_entry e user = elim e.ds [
  | some i ↦ ready i
  | none ↦ elim (cached e.users user) [
    | some i ↦ ready i
    | none ↦ elim e.provider [ some p ↦ to_build p | none ↦ missing ]
  ]
]

-- `GetForUser` up to the call of the provider.
unfoldable pub find_for_user : Registry → Text → Text → Found
unfolding find_in_entry
find_for_user r slug user = elim (lookup slug r.servers) [
  | none ↦ missing
  | some e ↦ find_in_entry e user
]

-- `e2.users[user] = inst`. A provider entry has a map, so the nil map is not written.
store_user : Registry → Text → Entry → Text → ℕ → Registry
store_user r slug e user inst = elim e.users [
  | none ↦ r
  | some m ↦ set_users r slug e (insert user inst m)
]

store_in_entry : Registry → Text → Entry → Text → ℕ → Registry × Option ℕ × List ℕ
unfolding store_user cached
store_in_entry r slug e user inst = elim e.provider [
  | none ↦ (r, none, inst ∷ [])
  | some _ ↦ elim (cached e.users user) [
    | some existing ↦ (r, some existing, inst ∷ [])
    | none ↦ (store_user r slug e user inst, some inst, [])
  ]
]

-- `GetForUser` from the provider's answer on: the registry, the instance that is returned (`none`
-- is `ErrNotFound`) and what is closed.
unfoldable pub store_built : Registry → Text → Text → ℕ → Registry × Option ℕ × List ℕ
unfolding store_in_entry
store_built r slug user inst = elim (lookup slug r.servers) [
  | none ↦ (r, none, inst ∷ [])
  | some e ↦ store_in_entry r slug e user inst
]

pub data Answer : Type 0 where
  instance_of : ℕ → Answer
  not_found : Answer
  provider_error : Answer

abbrev pub answer_of : Option ℕ → Answer
answer_of none = not_found
answer_of (some i) = instance_of i

-- `GetForUser` with nothing in between; `built` is what the provider answers, if it is called.
unfoldable pub get_for_user : Registry → Text → Text → Option ℕ → Registry × Answer × List ℕ
unfolding find_for_user store_built
get_for_user r slug user built = elim (find_for_user r slug user) [
  | ready i ↦ (r, instance_of i, [])
  | missing ↦ (r, not_found, [])
  | to_build p ↦ elim built [
    | none ↦ (r, provider_error, [])
    | some inst ↦ let (r', i, closed) = store_built r slug user inst in (r', answer_of i, closed)
  ]
]

-- A locked section of one of the operations, as it may run between others.
pub data Op : Type 0 where
  adds_scoped : Text → ℕ → List Text → Op
  adds_provider : Text → ℕ → List Text → Op
  removes : Text → Op
  invalidates : Text → Text → Op
  stores_built : Text → Text → ℕ → Op

unfoldable pub step : Registry → Op → Registry
step r (adds_scoped slug ds roles) = (add_scoped r slug ds roles).0
step r (adds_provider slug p roles) = (add_provider r slug p roles).0
step r (removes slug) = (remove r slug).0
step r (invalidates slug user) = (invalidate r slug user).0
step r (stores_built slug user inst) = (store_built r slug user inst).0

unfoldable pub run : Registry → List Op → Registry
run r [] = r
run r (o ∷ os) = run (step r o) os

contains : List Text → Text → Bool
contains [] a = false
contains (h ∷ hs) a = if text_beq a h then true else contains hs a

any_allowed : List Text → List Text → Bool
unfolding contains
any_allowed [] hs = false
any_allowed (a ∷ as') hs = if contains hs a then true else any_allowed as' hs

-- No allowed roles means that everybody is allowed.
pub roles_allow : List Text → List Text → Bool
unfolding any_allowed
roles_allow [] hs = true
roles_allow (a ∷ as') hs = any_allowed (a ∷ as') hs

unfoldable pub can_access : Registry → Text → List Text → Bool
unfolding roles_allow
can_access r slug roles = elim (lookup slug r.servers) [
  | none ↦ false
  | some e ↦ roles_allow e.roles roles
]

-- A slug without an entry reads as the zero entry, whose roles are empty.
abbrev roles_of : Option Entry → List Text
roles_of none = []
roles_of (some e) = e.roles

visible_from : Dict Entry → List Text → List Text → List Text
visible_from servers [] roles = []
visible_from servers (s ∷ ss) roles =
    if roles_allow (roles_of (lookup s servers)) roles
    then s ∷ visible_from servers ss roles
    else visible_from servers ss roles

unfoldable pub visible_slugs : Registry → List Text → List Text
unfolding visible_from roles_allow
visible_slugs r roles = visible_from r.servers r.order roles

-- The catalog: a registry for each organization, created on first use.
abbrev pub Catalog : Type 0
Catalog = Dict Registry

unfoldable pub registry_for : Catalog → Text → Registry
unfolding new_registry
registry_for c org = elim (lookup org c) [ some r ↦ r | none ↦ new_registry ]

-- Every operation of the catalog is one on the organization's registry.
unfoldable pub update_org : Catalog → Text → (Registry → Registry × List ℕ) → Catalog × List ℕ
unfolding registry_for
update_org c org f = let (r, closed) = f (registry_for c org) in (insert org r c, closed)
