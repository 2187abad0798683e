-- ===== src/Admin/Requests.antt =====
-- api.go: every request keeps to the relation of Admin/Changes.antt.
use mcp_gateway_w.Prelude.{◌≢◌, refl, inl, inr, Option-cases, [], Option, none, some, Text, Lacks}
use mcp_gateway_w.Prelude.Dict.{lookup}
use mcp_gateway_w.Authz.{Principal}
use mcp_gateway_w.Admin.{store_key, get_server}
use mcp_gateway_w.Admin.Stored.{IsStored}
use mcp_gateway_w.Admin.Handlers.{Handlers, State}
use mcp_gateway_w.Admin.Credentials.{
  bind_values, delete_org_credentials, put_my_credentials, delete_my_credentials,
}
use mcp_gateway_w.Admin.Api.{
  Request, creates, lists, gets, patches, deletes, puts_org_credentials, deletes_org_credentials,
  puts_my_credentials, deletes_my_credentials, lists_audit, handle,
}
use mcp_gateway_w.Admin.Changes.{Change, quiet}
use mcp_gateway_w.Admin.Editing.{create-Change, patch-Change, delete-Change}
use mcp_gateway_w.Admin.Rotation.{
  put_org_credentials-Change, deleted_org-Change, put_my_credentials-Change, deleted_my-Change,
}

-- The server whose shared credential the request sets or clears.
abbrev pub rotated_id : Request → Option Text
rotated_id req = elim req [
  | puts_org_credentials id v ↦ some id
  | deletes_org_credentials id ↦ some id
  | _ ↦ none
]

module _ {S : Type 0} (h : Handlers S) (org : Text) where
  -- Every request of an administrator with an identity is a change.
  pub handle-Change :
      (st : State S) (p : Principal) (req : Request)
      → IsStored st.store
      → Lacks b'/' org
      → p.user_id ≢ []
      → Change
          (rotated_id req)
          org
          st.store
          (handle h st org (some p) req).1.store
          st.published
          (handle h st org (some p) req).1.published
  unfolding handle delete_org_credentials put_my_credentials delete_my_credentials get_server
  handle-Change st p (creates req) w l u = create-Change h none org st (some p) req
  handle-Change st p lists w l u = quiet refl refl
  handle-Change st p (gets id) w l u =
      elim (Option-cases (lookup (store_key org id) st.store.by_id)) [
        | inl e ↦ rw (e, handle) (quiet refl refl)
        | inr (s, e) ↦ rw (e, handle) (quiet refl refl)
      ]
  handle-Change st p (patches id req) w l u = patch-Change h none org st (some p) id _ req refl w l
  handle-Change st p (deletes id) w l u = delete-Change h none org st (some p) id _ refl
  handle-Change st p (puts_org_credentials id v) w l u =
      put_org_credentials-Change h org st (some p) id _ (bind_values v) refl w l
  handle-Change st p (deletes_org_credentials id) w l u =
      deleted_org-Change h org st (some p) id _ w l
  handle-Change st p (puts_my_credentials id v) w l u =
      put_my_credentials-Change h org none st p id _ (bind_values v) refl u
  handle-Change st p (deletes_my_credentials id) w l u = deleted_my-Change h org none st p id _ u
  handle-Change st p lists_audit w l u = elim (Option-cases h.audit) [
    | inl e ↦ rw (e, handle) (quiet refl refl)
    | inr (d, e) ↦ rw (e, handle) (quiet refl refl)
  ]
