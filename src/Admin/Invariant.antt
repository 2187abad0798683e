-- ===== src/Admin/Invariant.antt =====
-- api.go: what the requests keep of the store, and what they may touch.
use mcp_gateway_w.Prelude.{
  ℕ, ◌≡◌, ◌≢◌, ◌⊎◌, inl, inr, refl, sym, ap, subst, ◌∙◌, false, Bool-cases, List, [], ◌∷◌, Option,
  some, Text, text_eq_iff, Lacks, arith, suc, if◌then◌else◌,
}
use mcp_gateway_w.Prelude.Dict.{lookup, insert, lookup-insert, lookup-erase}
use mcp_gateway_w.Authz.{Principal}
use mcp_gateway_w.ServerEvents.{Event}
use mcp_gateway_w.Admin.{Server, Store, store_key, server_id, slug_taken}
use mcp_gateway_w.Admin.Stored.{
  IsStored, IsStored-insert, IsStored-erase, IsStored-create_server, store_key-injective,
}
use mcp_gateway_w.Admin.Handlers.{Handlers, State, added, removed, rotated}
use mcp_gateway_w.Admin.Api.{Request, handle}
use mcp_gateway_w.Admin.Changes.{
  Change, quiet, adds, replaces, rotates, drops, rotates_user, IsSame, create_server-free,
}
use mcp_gateway_w.Admin.Requests.{rotated_id, handle-Change}

pub Change-IsStored :
    (rot : Option Text) (org : Text) (m m' : Store) (es es' : List Event)
    → Change rot org m m' es es'
    → IsStored m
    → Lacks b'/' org
    → IsStored m'
Change-IsStored rot org m m' es es' (quiet q r) w l = subst IsStored (sym q) w
Change-IsStored rot org m m' es es' (adds s o free on t q r) w l =
    subst IsStored (sym q) (IsStored-create_server m s w (subst (Lacks b'/') (sym o) l))
Change-IsStored rot org m m' es es' (replaces id old s e same q r) w l =
    subst IsStored (sym q)
      (IsStored-insert m (store_key org id) old s w e same.org_id same.id same.slug)
Change-IsStored rot org m m' es es' (rotates id old s z e same on t q r) w l =
    subst IsStored (sym q)
      (IsStored-insert m (store_key org id) old s w e same.org_id same.id same.slug)
Change-IsStored rot org m m' es es' (drops id old e q r) w l =
    subst IsStored (sym q) (IsStored-erase m (store_key org id) w)
Change-IsStored rot org m m' es es' (rotates_user id user old e u q r) w l =
    subst IsStored (sym q) w

-- A request to an organization whose name has no slash, by an administrator with an identity, keeps
-- the store well formed: every server stands under its key with an identity that was issued, and no
-- two servers of one organization share a slug.
pub handle-IsStored :
    {S : Type 0} (h : Handlers S) (st : State S) (org : Text) (p : Principal) (req : Request)
    → IsStored st.store
    → Lacks b'/' org
    → p.user_id ≢ []
    → IsStored (handle h st org (some p) req).1.store
handle-IsStored h st org p req w l u =
    Change-IsStored (rotated_id req) org st.store _ st.published _
      (handle-Change h org st p req w l u) w l

-- What the store holds at a key.
abbrev pub KeepsOthers : Text → Store → Store → Type 0
KeepsOthers org m m' =
    (k : Text) (s : Server)
    → s.org_id ≢ org
    → (lookup k m.by_id ≡ some s → lookup k m'.by_id ≡ some s)
      × (lookup k m'.by_id ≡ some s → lookup k m.by_id ≡ some s)

-- Only a server of the organization is put or dropped.
KeepsOthers-insert :
    (org : Text) (m : Store) (k : Text) (s : Server) (n : ℕ)
    → s.org_id ≡ org
    → ((old : Server) → lookup k m.by_id ≡ some old → old.org_id ≡ org)
    → KeepsOthers org m (record { by_id = insert k s m.by_id; seq = n })
KeepsOthers-insert org m k s n o f = λ j t other. (
  λ e. ground (arith, f t, text_eq_iff k j, lookup-insert k j s m.by_id),
  λ e. ground (arith, text_eq_iff k j, lookup-insert k j s m.by_id),
)

-- The store's lookups for the other organizations are the same, and what is published is about the
-- organization.
abbrev pub Isolates : Text → Store → Store → List Event → List Event → Type 0
Isolates org m m' es es' =
    KeepsOthers org m m' × ((es' ≡ es) ⊎ ((e : Event) × (e.org_id ≡ org) × (es' ≡ e ∷ es)))

-- The organization of a stored server, by its key.
entry-org :
    (org id : Text) (m : Store) (s : Server)
    → IsStored m
    → Lacks b'/' org
    → lookup (store_key org id) m.by_id ≡ some s
    → s.org_id ≡ org
entry-org org id m s w l e =
    let n = w.entry (store_key org id) s e in
    sym (store_key-injective org s.org_id id s.id l n.org n.key).0

KeepsOthers-replace :
    (org id : Text) (m : Store) (old s : Server)
    → IsStored m
    → Lacks b'/' org
    → lookup (store_key org id) m.by_id ≡ some old
    → IsSame old s
    → KeepsOthers org m (record m { by_id = insert (store_key org id) s m.by_id })
KeepsOthers-replace org id m old s w l e same =
    KeepsOthers-insert org m (store_key org id) s m.seq (same.org_id ∙ entry-org org id m old w l e)
      (λ t f. entry-org org id m t w l f)

Change-Isolates :
    (rot : Option Text) (org : Text) (m m' : Store) (es es' : List Event)
    → Change rot org m m' es es'
    → IsStored m
    → Lacks b'/' org
    → Isolates org m m' es es'
unfolding added removed rotated
Change-Isolates rot org m m' es es' (quiet q r) w l =
    (subst (KeepsOthers org m) (sym q) (λ k s n. (λ e. e, λ e. e)), inl r)
Change-Isolates rot org m m' es es' (adds s o free on t q r) w l = (
  subst (KeepsOthers org m)
      (sym (
        q
        ∙ ap (λ x. x.1)
            (create_server-free m s
              (subst (λ x. slug_taken m.by_id x s.slug ≡ false) (sym o) free))))
      (KeepsOthers-insert org m (store_key s.org_id (server_id (suc m.seq)))
        (record s { id = server_id (suc m.seq) }) (suc m.seq) o
        (λ t f.
          entry-org org (server_id (suc m.seq)) m t w l
            (subst (λ x. lookup (store_key x (server_id (suc m.seq))) m.by_id ≡ some t) o f))),
  inr (added (record s { id = server_id (suc m.seq) }), o, r),
)
Change-Isolates rot org m m' es es' (replaces id old s e same q r) w l = (
  subst (KeepsOthers org m) (sym q) (KeepsOthers-replace org id m old s w l e same),
  inr (
    if s.enabled then added s else removed s,
    elim (Bool-cases s.enabled) [
      | inl b ↦ rw b (same.org_id ∙ entry-org org id m old w l e)
      | inr b ↦ rw b (same.org_id ∙ entry-org org id m old w l e)
    ],
    r,
  ),
)
Change-Isolates rot org m m' es es' (rotates id old s z e same on t q r) w l = (
  subst (KeepsOthers org m) (sym q) (KeepsOthers-replace org id m old s w l e same),
  inr (added s, same.org_id ∙ entry-org org id m old w l e, r),
)
Change-Isolates rot org m m' es es' (drops id old e q r) w l = (
  subst (KeepsOthers org m) (sym q) (λ k s n. (
    λ f. ground (
      arith,
      entry-org org id m s w l,
      text_eq_iff (store_key org id) k,
      lookup-erase (store_key org id) k m.by_id,
    ),
    λ f. ground (arith, lookup-erase (store_key org id) k m.by_id),
  )),
  inr (removed old, entry-org org id m old w l e, r),
)
Change-Isolates rot org m m' es es' (rotates_user id [] old e u q r) w l = absurd (u refl)
Change-Isolates rot org m m' es es' (rotates_user id (a ∷ user) old e u q r) w l = (
  subst (KeepsOthers org m) (sym q) (λ k s n. (λ e. e, λ e. e)),
  inr (rotated old (a ∷ user), entry-org org id m old w l e, r),
)

-- A request to one organization, whose name has no slash, by an administrator with an identity finds
-- and leaves the same servers of every other organization, and publishes at most one event, which is
-- about its own organization.
pub handle-Isolates :
    {S : Type 0} (h : Handlers S) (st : State S) (org : Text) (p : Principal) (req : Request)
    → IsStored st.store
    → Lacks b'/' org
    → p.user_id ≢ []
    → let st1 = (handle h st org (some p) req).1 in
      Isolates org st.store st1.store st.published st1.published
handle-Isolates h st org p req w l u =
    Change-Isolates (rotated_id req) org st.store _ st.published _
      (handle-Change h org st p req w l u) w l
