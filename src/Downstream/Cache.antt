-- ===== src/Downstream/Cache.antt =====
-- downstream.go: the instances that are built for each user.
use mcp_gateway_w.Prelude.{
  ℕ, ◌≡◌, ◌≢◌, false, List, [], ◌∷◌, none, some, Text, text_beq, text_eq_iff, eq_refl, arith,
  if◌then◌else◌,
}
use mcp_gateway_w.Prelude.Dict.{Dict, lookup, insert, erase, lookup-insert, lookup-erase}
use mcp_gateway_w.Downstream.{
  Entry, Registry, Catalog, put_entry, add_provider, remove, drop_user, invalidate, ready, to_build,
  missing, find_in_entry, find_for_user, store_user, store_in_entry, store_built, can_access,
  registry_for, update_org,
}

-- The kill switch: after `Remove` nobody may use the slug and no instance is found for it, whatever
-- the registry was.
remove-find_for_user :
    (r : Registry) (slug user : Text) (roles : List Text)
    → (find_for_user (remove r slug).0 slug user ≡ missing)
      × (can_access (remove r slug).0 slug roles ≡ false)
unfolding remove find_for_user can_access
remove-find_for_user r slug user roles =
    ground (arith, eq_refl slug, lookup-erase slug slug r.servers)

-- The entry of a per-user server.
pub record IsPerUser (r : Registry) (slug : Text) (p : ℕ) (e : Entry) (m : Dict ℕ) : Type 0 where
  pub found : lookup slug r.servers ≡ some e
  pub no_fixed : e.ds ≡ none
  pub provider : e.provider ≡ some p
  pub users : e.users ≡ some m

-- After the rotation of a user's credential the next request of that user calls the provider, and
-- every other user keeps the instance that is cached.
invalidate-find_for_user :
    (r : Registry) (slug user other : Text) (p : ℕ) (e : Entry) (m : Dict ℕ)
    → IsPerUser r slug p e m
    → user ≢ []
    → find_for_user (invalidate r slug user).0 slug other
      ≡ (if text_beq user other then to_build p else find_for_user r slug other)
unfolding invalidate find_for_user drop_user find_in_entry
invalidate-find_for_user r slug user other p e m v u = ground (
  arith,
  text_eq_iff user [],
  text_eq_iff user other,
  eq_refl slug,
  lookup-erase user other m,
  lookup-insert slug slug (record e { users = some (erase user m) }) r.servers,
)

-- Of two builds for one user that run at once the first that is stored wins: the second call gets
-- the winner's instance, its own is closed, and the registry stays as it was.
store_built-race :
    (r : Registry) (slug user : Text) (p : ℕ) (e : Entry) (m : Dict ℕ) (i j : ℕ)
    → IsPerUser r slug p e m
    → lookup user m ≡ none
    → let first = store_built r slug user i in
      let second = store_built first.0 slug user j in
      (first.1 ≡ some i)
      × (first.2 ≡ [])
      × (second.0 ≡ first.0)
      × (second.1 ≡ some i)
      × (second.2 ≡ j ∷ [])
unfolding store_built store_in_entry store_user
store_built-race r slug user p e m i j v free = ground (
  arith,
  eq_refl slug,
  eq_refl user,
  lookup-insert user user i m,
  lookup-insert slug slug (record e { users = some (insert user i m) }) r.servers,
)

-- An instance that one provider built is cached and served under the registration that replaced
-- this provider during the build, and then is neither closed nor built anew.
store_built-stale :
    (r : Registry) (slug user : Text) (p q inst : ℕ) (roles : List Text)
    → find_for_user r slug user ≡ to_build p
    → p ≢ q
    → let replaced = (add_provider r slug q roles).0 in
      let stored = store_built replaced slug user inst in
      (find_for_user replaced slug user ≡ to_build q)
      × (find_for_user stored.0 slug user ≡ ready inst)
      × (stored.1 ≡ some inst)
      × (stored.2 ≡ [])
unfolding add_provider put_entry find_for_user find_in_entry store_built store_in_entry store_user
    lookup
store_built-stale r slug user p q inst roles building other =
    let e : Entry = record { ds = none; provider = some q; users = some []; roles = roles } in
    ground (
      arith,
      eq_refl slug,
      eq_refl user,
      lookup-insert slug slug e r.servers,
      lookup-insert user user inst [],
      lookup-insert slug slug (record e { users = some (insert user inst []) })
          (insert slug e r.servers),
    )

-- Servers are never shared: an operation on one organization's registry leaves every other's alone.
registry_for-update_org :
    (c : Catalog) (org other : Text) (f : Registry → Registry × List ℕ)
    → registry_for (update_org c org f).0 other
      ≡ (if text_beq org other then (f (registry_for c org)).0 else registry_for c other)
unfolding registry_for update_org
registry_for-update_org c org other f =
    ground (arith, text_eq_iff org other, lookup-insert org other (f (registry_for c org)).0 c)
