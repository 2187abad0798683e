-- ===== src/Admin/Editing.antt =====
-- handlers.go: creating, changing and deleting a server keeps to the relation of Admin/Changes.antt.
use mcp_gateway_w.Prelude.{
  ◌≡◌, refl, sym, subst, inl, inr, true, false, Bool-cases, Option-cases, List, [], Option, none,
  some, Text, text_beq, text_eq_iff, Lacks, arith,
}
use mcp_gateway_w.Prelude.Dict.{Dict, lookup}
use mcp_gateway_w.Authz.{Principal}
use mcp_gateway_w.ServerEvents.{Event}
use mcp_gateway_w.Admin.{
  remote_http, stdio, Server, Store, store_key, slug_taken, create_server, get_server,
  update_server,
}
use mcp_gateway_w.Admin.Stored.{IsEntry, IsStored}
use mcp_gateway_w.Admin.Handlers.{Handlers, State, record_event}
use mcp_gateway_w.Admin.Edits.{
  CreateReq, PatchReq, patched, invalid, new_server, created, create_valid, create, updated, patch,
  deleted, delete,
}
use mcp_gateway_w.Admin.Changes.{
  IsKnown, Change, quiet, adds, replaces, drops, IsSame, update_server-found, delete_server-found,
  create_server-free, create_server-taken,
}

module _ {S : Type 0} (h : Handlers S) (rot : Option Text) (org : Text) where
  Change-record_event :
      (m : Store) (es : List Event) (st : State S) (p : Option Principal) (action target : Text)
      (meta : Dict Text)
      → Change rot org m st.store es st.published
      → Change rot org m
          (record_event h st org p action target meta).store
          es
          (record_event h st org p action target meta).published
  unfolding record_event
  Change-record_event m es st p action target meta c = elim (Option-cases h.audit) [
    | inl e ↦ rw e c
    | inr (d, e) ↦ rw e c
  ]

  updated-Change :
      (st : State S) (p : Option Principal) (id : Text) (old s : Server)
      → lookup (store_key org id) st.store.by_id ≡ some old
      → IsSame old s
      → store_key s.org_id s.id ≡ store_key org id
      → Change rot org st.store
          (updated h st org p (update_server st.store s)).1.store
          st.published
          (updated h st org p (update_server st.store s)).1.published
  unfolding updated
  updated-Change st p id old s e same k =
      rw (update_server-found st.store (store_key org id) old s e k) (
        Change-record_event st.store st.published _ p _ s.slug []
          (replaces id old s e same refl refl))

  pub same_key :
      (m : Store) (id : Text) (old : Server)
      → IsStored m
      → Lacks b'/' org
      → lookup (store_key org id) m.by_id ≡ some old
      → store_key old.org_id old.id ≡ store_key org id
  same_key m id old w l e = sym (IsEntry.key (w.entry (store_key org id) old e))

  pub patch-Change :
      (st : State S) (p : Option Principal) (id : Text) (o : Option Server) (req : Option PatchReq)
      → get_server st.store org id ≡ o
      → IsStored st.store
      → Lacks b'/' org
      → Change rot org st.store
          (patch h st org p o req).1.store
          st.published
          (patch h st org p o req).1.published
  unfolding patch patched get_server
  patch-Change st p id none req e w l = quiet refl refl
  patch-Change st p id (some s) none e w l = quiet refl refl
  patch-Change st p id (some s) (some req) e w l =
      updated-Change st p id s (patched req s) e (record { org_id = refl; id = refl; slug = refl })
        (same_key st.store id s w l e)

  pub delete-Change :
      (st : State S) (p : Option Principal) (id : Text) (o : Option Server)
      → get_server st.store org id ≡ o
      → Change rot org st.store
          (delete h st org p id o).1.store
          st.published
          (delete h st org p id o).1.published
  unfolding delete deleted get_server
  delete-Change st p id none e = quiet refl refl
  delete-Change st p id (some s) e =
      rw (delete_server-found st.store org id s e)
        (Change-record_event st.store st.published _ p _ s.slug _ (drops id s e refl refl))

  invalid-IsKnown : (req : CreateReq) → invalid req ≡ none → IsKnown req.server_type
  unfolding invalid
  invalid-IsKnown req e =
      ground (arith, text_eq_iff req.server_type remote_http, text_eq_iff req.server_type stdio)

  new_server-fields :
      (st : State S) (req : CreateReq)
      → let s = new_server h st org req in
        (s.org_id ≡ org) × (s.enabled ≡ true) × (s.server_type ≡ req.server_type)
  unfolding new_server
  new_server-fields st req = elim (Bool-cases (text_beq req.server_type remote_http)) [
    | inl e ↦ rw e (refl, refl, refl)
    | inr e ↦ rw e (refl, refl, refl)
  ]

  created-Change :
      (st : State S) (p : Option Principal) (s : Server)
      → s.org_id ≡ org
      → s.enabled ≡ true
      → IsKnown s.server_type
      → Change rot org st.store
          (created h st org p (create_server st.store s)).1.store
          st.published
          (created h st org p (create_server st.store s)).1.published
  unfolding created
  created-Change st p s o on t = elim (Bool-cases (slug_taken st.store.by_id s.org_id s.slug)) [
    | inl e ↦ rw (create_server-taken st.store s e) (quiet refl refl)
    | inr e ↦
        let f = create_server-free st.store s e in
        rw f (
          Change-record_event st.store st.published _ p _ s.slug _ (
            adds s o (subst (λ x. slug_taken st.store.by_id x s.slug ≡ false) o e) on t
              (ground (arith, on, f)) (ground (arith, on))))
  ]

  create_valid-Change :
      (st : State S) (p : Option Principal) (req : CreateReq) (o : Option Text)
      → invalid req ≡ o
      → Change rot org st.store
          (create_valid h st org p req o).1.store
          st.published
          (create_valid h st org p req o).1.published
  unfolding create_valid
  create_valid-Change st p req (some msg) e = quiet refl refl
  create_valid-Change st p req none e =
      let (o, on, t) = new_server-fields st req in
      created-Change st p (new_server h st org req) o on
        (subst IsKnown (sym t) (invalid-IsKnown req e))

  pub create-Change :
      (st : State S) (p : Option Principal) (req : Option CreateReq)
      → Change rot org st.store
          (create h st org p req).1.store
          st.published
          (create h st org p req).1.published
  unfolding create
  create-Change st p none = quiet refl refl
  create-Change st p (some req) = create_valid-Change st p req (invalid req) refl
