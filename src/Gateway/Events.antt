-- ===== src/Gateway/Events.antt =====
-- server.go and reconcile.go: which slugs the catalog serves after an event.
use mcp_gateway_w.Prelude.{
  ℕ, ◌≡◌, refl, ◌⊎◌, inl, inr, Bool, true, false, Bool-cases, Option-cases, ◌&&◌, ◌||◌, List, [],
  ◌∷◌, ◌++◌, none, some, Text, lit, text_beq, text_eq_iff, arith, if◌then◌else◌,
}
use mcp_gateway_w.Prelude.Dict.{lookup, erase, lookup-insert, lookup-erase}
use mcp_gateway_w.Downstream.{
  Entry, Registry, Catalog, put_entry, add_scoped, add_provider, remove, drop_user, invalidate,
  registry_for, update_org,
}
use mcp_gateway_w.ServerEvents.{upsert, removal, credential_changed, unset, Event}
use mcp_gateway_w.Gateway.{
  Server, State, Client, provider_of, remote_client, stdio_client, cred_headers, kv_env,
  resolve_credentials, register, upsert_per_user, upsert_shared, apply_server_event, or_upsert,
  reconcile,
}

pub has_slug : Registry → Text → Bool
has_slug r slug = elim (lookup slug r.servers) [ none ↦ false | some e ↦ true ]

-- Whether the catalog has an entry for the slug in the organization's registry.
unfoldable pub registered : Catalog → Text → Text → Bool
unfolding has_slug
registered c org slug = has_slug (registry_for c org) slug

registered-update_org :
    (c : Catalog) (org other slug : Text) (f : Registry → Registry × List ℕ)
    → registered (update_org c org f).0 other slug ≡ (
        if text_beq org other
        then has_slug (f (registry_for c org)).0 slug
        else registered c other slug)
unfolding registered registry_for update_org
registered-update_org c org other slug f =
    ground (arith, text_eq_iff org other, lookup-insert org other (f (registry_for c org)).0 c)

has_slug-put_entry :
    (r : Registry) (slug other : Text) (e : Entry)
    → has_slug (put_entry r slug e).0 other
      ≡ (if text_beq slug other then true else has_slug r other)
unfolding has_slug put_entry
has_slug-put_entry r slug other e = ground (arith, lookup-insert slug other e r.servers)

has_slug-remove :
    (r : Registry) (slug other : Text)
    → has_slug (remove r slug).0 other ≡ (if text_beq slug other then false else has_slug r other)
unfolding has_slug remove
has_slug-remove r slug other =
    ground (arith, text_eq_iff slug other, lookup-erase slug other r.servers)

has_slug-invalidate :
    (r : Registry) (slug user other : Text)
    → has_slug (invalidate r slug user).0 other ≡ has_slug r other
unfolding has_slug invalidate drop_user
has_slug-invalidate r slug user other = elim (Option-cases (lookup slug r.servers)) [
  | inl f ↦ ground (arith, f)
  | inr (e, f) ↦ elim (Option-cases e.users) [
    | inl g ↦ ground (arith, f, g)
    | inr (m, g) ↦ ground (
      arith,
      f,
      g,
      text_eq_iff slug other,
      lookup-insert slug other (record e { users = some [] }) r.servers,
      lookup-insert slug other (record e { users = some (erase user m) }) r.servers,
    )
  ]
]

abbrev pub IsServed : Text → Type 0
IsServed t = (t ≡ lit "remote_http") ⊎ (t ≡ lit "stdio")

abbrev pub is_at : Event → Text → Text → Bool
is_at e org slug = text_beq e.org_id org && text_beq e.slug slug

abbrev pub is_served : Text → Bool
is_served t = text_beq t (lit "remote_http") || text_beq t (lit "stdio")

-- Whether a definition of the slug, of a type that the gateway serves, is among those listed.
abbrev pub listed : List Event → Text → Text → Bool
listed [] org slug = false
listed (e ∷ es) org slug = (is_at e org slug && is_served e.server_type) || listed es org slug

-- What `ListEnabled` gives has no action, and may have the upsert; it is of any type.
abbrev pub IsListing : List Event → Type 0
IsListing [] = Unit
IsListing (e ∷ es) = ((e.action ≡ unset) ⊎ (e.action ≡ upsert)) × IsListing es

module _ {S : Type 0} (sv : Server S) (secrets : S) where
  registered-register :
      (st : State) (e : Event) (client : Client) (org slug : Text) (entry : ℕ → Entry)
      → registered
          (register st e.org_id client (λ i r. put_entry r e.slug (entry i))).catalog
          org
          slug
        ≡ (if is_at e org slug then true else registered st.catalog org slug)
  unfolding register registered
  registered-register st e client org slug entry = ground (
    arith,
    text_eq_iff e.org_id org,
    registered-update_org st.catalog e.org_id org slug (λ r. put_entry r e.slug (entry st.next)),
    has_slug-put_entry (registry_for st.catalog e.org_id) e.slug slug (entry st.next),
  )

  -- A definition of either kind is served once it was applied; nothing else changes.
  pub registered-upsert :
      (st : State) (e : Event) (org slug : Text)
      → e.action ≡ upsert
      → IsServed e.server_type
      → registered (apply_server_event sv secrets st e).catalog org slug
        ≡ (if is_at e org slug then true else registered st.catalog org slug)
  unfolding apply_server_event upsert_per_user upsert_shared add_scoped add_provider text_beq
  registered-upsert st e org slug a t =
      let creds = resolve_credentials sv.secrets_api secrets e in
      let remote =
        remote_client e.endpoint_url sv.block_egress (cred_headers sv.header_key creds) in
      let process = stdio_client e.command e.args (kv_env e.env ++ kv_env creds) in
      let per_user : ℕ → Entry =
        λ i. record { ds = none; provider = some i; users = some []; roles = e.allowed_roles } in
      let shared : ℕ → Entry =
        λ i. record { ds = some i; provider = none; users = none; roles = e.allowed_roles } in
      elim (Bool-cases (text_beq e.credential_mode (lit "per_user"))) [
        | inl m ↦ elim t [
          | inl q ↦ rw (a, m, q) (registered-register st e (provider_of e) org slug per_user)
          | inr q ↦ rw (a, m, q) (registered-register st e (provider_of e) org slug per_user)
        ]
        | inr m ↦ elim t [
          | inl q ↦ rw (a, m, q) (registered-register st e remote org slug shared)
          | inr q ↦ rw (a, m, q) (registered-register st e process org slug shared)
        ]
      ]

  -- A definition of another type is ignored.
  upsert_unserved :
      (st : State) (e : Event)
      → e.action ≡ upsert
      → is_served e.server_type ≡ false
      → apply_server_event sv secrets st e ≡ st
  unfolding apply_server_event upsert_per_user upsert_shared
  upsert_unserved st e a n = rw a (ground arith)

  is_served-IsServed : (t : Text) → is_served t ≡ true → IsServed t
  is_served-IsServed t h =
      ground (arith, text_eq_iff t (lit "remote_http"), text_eq_iff t (lit "stdio"))

  registered-upsert_any :
      (st : State) (e : Event) (org slug : Text)
      → e.action ≡ upsert
      → registered (apply_server_event sv secrets st e).catalog org slug
        ≡ ((is_at e org slug && is_served e.server_type) || registered st.catalog org slug)
  registered-upsert_any st e org slug a = elim (Bool-cases (is_served e.server_type)) [
    | inl y ↦
        ground (arith, y, registered-upsert st e org slug a (is_served-IsServed e.server_type y))
    | inr n ↦ rw (upsert_unserved st e a n) (ground (arith, n))
  ]

  pub registered-removal :
      (st : State) (e : Event) (org slug : Text)
      → e.action ≡ removal
      → registered (apply_server_event sv secrets st e).catalog org slug
        ≡ (if is_at e org slug then false else registered st.catalog org slug)
  unfolding apply_server_event registered
  registered-removal st e org slug a = rw a (
      ground (
        arith,
        text_eq_iff e.org_id org,
        registered-update_org st.catalog e.org_id org slug (λ r. remove r e.slug),
        has_slug-remove (registry_for st.catalog e.org_id) e.slug slug,
      ))

  pub registered-credential_changed :
      (st : State) (e : Event) (org slug : Text)
      → e.action ≡ credential_changed
      → registered (apply_server_event sv secrets st e).catalog org slug
        ≡ registered st.catalog org slug
  unfolding apply_server_event registered
  registered-credential_changed st e org slug a = rw a (
      ground (
        arith,
        text_eq_iff e.org_id org,
        registered-update_org st.catalog e.org_id org slug (λ r. invalidate r e.slug e.user_id),
        has_slug-invalidate (registry_for st.catalog e.org_id) e.slug e.user_id slug,
      ))

  -- After the catalog is reconciled with a listing of enabled servers it serves exactly those of them
  -- that are of a type which it knows, and what it served before.
  pub registered-reconcile :
      (es : List Event) (st : State) (org slug : Text)
      → IsListing es
      → registered (reconcile sv es secrets st).catalog org slug
        ≡ (listed es org slug || registered st.catalog org slug)
  unfolding reconcile
  registered-reconcile [] st org slug l = refl
  registered-reconcile (e ∷ es) st org slug (a, l) =
      let e1 : Event = record e { action = or_upsert e.action } in
      let up : e1.action ≡ upsert = elim a [ inl q ↦ rw q refl | inr q ↦ rw q refl ] in
      ground (
        arith,
        registered-reconcile es (apply_server_event sv secrets st e1) org slug l,
        registered-upsert_any st e1 org slug up,
      )
