-- ===== src/Admin/Rotation.antt =====
-- credentials.go: storing and deleting credentials keeps to the relation of Admin/Changes.antt.
use mcp_gateway_w.Prelude.{
  ◌≡◌, ◌≢◌, refl, sym, ap, subst, ◌∙◌, inl, inr, Bool, true, false, Option-cases, List, [], ◌∷◌,
  Option, none, some, Text, Lacks,
}
use mcp_gateway_w.Prelude.Dict.{Dict, lookup}
use mcp_gateway_w.Authz.{Principal}
use mcp_gateway_w.ServerEvents.{Event}
use mcp_gateway_w.Admin.{Server, Store, store_key, get_server, update_server}
use mcp_gateway_w.Admin.Stored.{IsStored}
use mcp_gateway_w.Admin.Handlers.{Handlers, State, added, rotated, record_event}
use mcp_gateway_w.Admin.Credentials.{
  marked, stored_org, put_org_credentials, cleared_org, deleted_org, stored_my, put_my_credentials,
  cleared_my, deleted_my,
}
use mcp_gateway_w.Admin.Changes.{
  IsRotated, Change, quiet, rotates, rotates_user, insert-same, update_server-found,
}
use mcp_gateway_w.Admin.Editing.{same_key}

module _ {S : Type 0} (h : Handlers S) (org : Text) where
  record_event-kept :
      (st : State S) (p : Option Principal) (action target : Text) (meta : Dict Text)
      → ((record_event h st org p action target meta).store ≡ st.store)
        × ((record_event h st org p action target meta).published ≡ st.published)
  unfolding record_event
  record_event-kept st p action target meta = elim (Option-cases h.audit) [
    | inl e ↦ rw e (refl, refl)
    | inr (d, e) ↦ rw e (refl, refl)
  ]

  -- The organization's credential of a stored server is set or cleared, the flag with it.
  flag-IsRotated :
      (st : State S) (m' : Store) (es' : List Event) (id : Text) (old : Server) (flag : Bool)
      → lookup (store_key org id) st.store.by_id ≡ some old
      → IsStored st.store
      → Lacks b'/' org
      → let s : Server = record old { credential_set = flag } in
        m' ≡ (update_server st.store s).1
        → es' ≡ added s ∷ st.published
        → IsRotated org id old st.store m' st.published es'
  flag-IsRotated st m' es' id old flag e w l q r =
      let s : Server = record old { credential_set = flag } in
      record {
        server = s;
        same = record { org_id = refl; id = refl; slug = refl };
        same_enabled = refl;
        same_type = refl;
        store =
            q
            ∙ ap (λ x. x.1)
                (update_server-found st.store (store_key org id) old s e
                  (same_key h none org st.store id old w l e));
        published = r;
      }

  marked-IsRotated :
      (st : State S) (p : Option Principal) (id action : Text) (meta : Dict Text) (s : Server)
      (secrets : S) (b : Bool)
      → lookup (store_key org id) st.store.by_id ≡ some s
      → IsStored st.store
      → Lacks b'/' org
      → let (st1, s1) = marked (record st { secrets = secrets }) s b in
        let st2 = record_event h st1 org p action id meta in
        IsRotated org id s st.store st2.store st.published (added s1 ∷ st2.published)
  unfolding marked
  marked-IsRotated st p id action meta s secrets true e w l =
      let (q, r) = record_event-kept (record st { secrets = secrets }) p action id meta in
      record {
        server = s;
        same = record { org_id = refl; id = refl; slug = refl };
        same_enabled = refl;
        same_type = refl;
        store =
            q
            ∙ ap (λ d. record st.store { by_id = d })
                (sym (insert-same st.store.by_id (store_key org id) s e));
        published = ap (λ es. added s ∷ es) r;
      }
  marked-IsRotated st p id action meta s secrets false e w l =
      let s1 : Server = record s { credential_set = true } in
      let (q, r) =
        record_event-kept (record st { secrets = secrets; store = (update_server st.store s1).1 }) p
          action id meta in
      flag-IsRotated st _ _ id s true e w l q (ap (λ es. added s1 ∷ es) r)

  pub stored_org-IsRotated :
      (st : State S) (p : Option Principal) (id : Text) (s : Server) (secrets : S)
      → lookup (store_key org id) st.store.by_id ≡ some s
      → IsStored st.store
      → Lacks b'/' org
      → let st1 = (stored_org h st org p id s (true, secrets)).1 in
        IsRotated org id s st.store st1.store st.published st1.published
  unfolding stored_org rotated
  stored_org-IsRotated st p id s secrets e w l =
      marked-IsRotated st p id _ _ s secrets s.credential_set e w l

  rotated-Change :
      (st : State S) (m' : Store) (es' : List Event) (id : Text) (old : Server)
      → lookup (store_key org id) st.store.by_id ≡ some old
      → IsRotated org id old st.store m' st.published es'
      → Change (some id) org st.store m' st.published es'
  rotated-Change st m' es' id old e x =
      rotates id old x.server refl e x.same x.same_enabled x.same_type x.store x.published

  stored_org-Change :
      (st : State S) (p : Option Principal) (id : Text) (s : Server) (b : Bool × S)
      → lookup (store_key org id) st.store.by_id ≡ some s
      → IsStored st.store
      → Lacks b'/' org
      → Change
          (some id)
          org
          st.store
          (stored_org h st org p id s b).1.store
          st.published
          (stored_org h st org p id s b).1.published
  unfolding stored_org
  stored_org-Change st p id s (false, secrets) e w l = quiet refl refl
  stored_org-Change st p id s (true, secrets) e w l =
      rotated-Change st _ _ id s e (stored_org-IsRotated st p id s secrets e w l)

  pub put_org_credentials-Change :
      (st : State S) (p : Option Principal) (id : Text) (o : Option Server) (v : Option (Dict Text))
      → get_server st.store org id ≡ o
      → IsStored st.store
      → Lacks b'/' org
      → Change
          (some id)
          org
          st.store
          (put_org_credentials h st org p id o v).1.store
          st.published
          (put_org_credentials h st org p id o v).1.published
  unfolding put_org_credentials get_server
  put_org_credentials-Change st p id none v e w l = quiet refl refl
  put_org_credentials-Change st p id (some s) none e w l = quiet refl refl
  put_org_credentials-Change st p id (some s) (some v) e w l = stored_org-Change st p id s _ e w l

  cleared_org-Change :
      (st st2 : State S) (id : Text) (o : Option Server)
      → get_server st2.store org id ≡ o
      → IsStored st.store
      → Lacks b'/' org
      → st2.store ≡ st.store
      → st2.published ≡ st.published
      → Change
          (some id)
          org
          st.store
          (cleared_org st2 o).store
          st.published
          (cleared_org st2 o).published
  unfolding cleared_org get_server rotated
  cleared_org-Change st st2 id none e w l q r = quiet q r
  cleared_org-Change st st2 id (some s) e w l q r =
      let s1 : Server = record s { credential_set = false } in
      let found = subst (λ m. lookup (store_key org id) m.by_id ≡ some s) q e in
      rotated-Change st _ _ id s found (
        flag-IsRotated st _ _ id s false found w l (ap (λ m. (update_server m s1).1) q)
          (ap (λ es. added s1 ∷ es) r))

  pub deleted_org-Change :
      (st : State S) (p : Option Principal) (id : Text) (b : Bool × S)
      → IsStored st.store
      → Lacks b'/' org
      → Change
          (some id)
          org
          st.store
          (deleted_org h st org p id b).1.store
          st.published
          (deleted_org h st org p id b).1.published
  unfolding deleted_org
  deleted_org-Change st p id (false, secrets) w l = quiet refl refl
  deleted_org-Change st p id (true, secrets) w l =
      let (q, r) = record_event-kept (record st { secrets = secrets }) p _ id _ in
      cleared_org-Change st _ id _ refl w l q r

  rotated_user-Change :
      (rot : Option Text) (st : State S) (m' : Store) (es' : List Event) (id user : Text)
      (s : Server)
      → lookup (store_key org id) st.store.by_id ≡ some s
      → user ≢ []
      → m' ≡ st.store
      → es' ≡ st.published
      → Change rot org st.store m' st.published (rotated s user ∷ es')
  rotated_user-Change rot st m' es' id user s e u q r =
      rotates_user id user s e u q (ap (λ es. rotated s user ∷ es) r)

  stored_my-Change :
      (rot : Option Text) (st : State S) (p : Principal) (id : Text) (s : Server) (b : Bool × S)
      → lookup (store_key org id) st.store.by_id ≡ some s
      → p.user_id ≢ []
      → Change rot org st.store
          (stored_my h st org p id s b).1.store
          st.published
          (stored_my h st org p id s b).1.published
  unfolding stored_my
  stored_my-Change rot st p id s (false, secrets) e u = quiet refl refl
  stored_my-Change rot st p id s (true, secrets) e u =
      let (q, r) = record_event-kept (record st { secrets = secrets }) (some p) _ id _ in
      rotated_user-Change rot st _ _ id p.user_id s e u q r

  pub put_my_credentials-Change :
      (rot : Option Text) (st : State S) (p : Principal) (id : Text) (o : Option Server)
      (v : Option (Dict Text))
      → get_server st.store org id ≡ o
      → p.user_id ≢ []
      → Change rot org st.store
          (put_my_credentials h st org (some p) id o v).1.store
          st.published
          (put_my_credentials h st org (some p) id o v).1.published
  unfolding put_my_credentials get_server
  put_my_credentials-Change rot st p id none v e u = quiet refl refl
  put_my_credentials-Change rot st p id (some s) none e u = quiet refl refl
  put_my_credentials-Change rot st p id (some s) (some v) e u = stored_my-Change rot st p id s _ e u

  cleared_my-Change :
      (rot : Option Text) (st st2 : State S) (id user : Text) (o : Option Server)
      → get_server st2.store org id ≡ o
      → user ≢ []
      → st2.store ≡ st.store
      → st2.published ≡ st.published
      → Change rot org st.store
          (cleared_my st2 user o).store
          st.published
          (cleared_my st2 user o).published
  unfolding cleared_my get_server
  cleared_my-Change rot st st2 id user none e u q r = quiet q r
  cleared_my-Change rot st st2 id user (some s) e u q r =
      rotated_user-Change rot st st2.store st2.published id user s
        (subst (λ m. lookup (store_key org id) m.by_id ≡ some s) q e) u q r

  pub deleted_my-Change :
      (rot : Option Text) (st : State S) (p : Principal) (id : Text) (b : Bool × S)
      → p.user_id ≢ []
      → Change rot org st.store
          (deleted_my h st org p id b).1.store
          st.published
          (deleted_my h st org p id b).1.published
  unfolding deleted_my
  deleted_my-Change rot st p id (false, secrets) u = quiet refl refl
  deleted_my-Change rot st p id (true, secrets) u =
      let (q, r) = record_event-kept (record st { secrets = secrets }) (some p) _ id _ in
      cleared_my-Change rot st _ id p.user_id _ refl u q r
