-- ===== src/Admin/Revival.antt =====
-- credentials.go: what storing the shared credential of a disabled server does in the gateway.
use mcp_gateway_w.Prelude.{
  ◌≡◌, refl, sym, ap, subst, ◌∙◌, true, false, List, [], ◌∷◌, map, Option, some, Text, eq_refl,
  Lacks, arith,
}
use mcp_gateway_w.Prelude.Dict.{Dict, lookup-insert}
use mcp_gateway_w.Authz.{Principal}
use mcp_gateway_w.Secrets.{org_ref}
use mcp_gateway_w.ServerEvents.{Event}
use mcp_gateway_w.Gateway
use mcp_gateway_w.Gateway.{new_gateway, replay, apply_server_event}
use mcp_gateway_w.Gateway.Events.{registered, IsServed, registered-upsert}
use mcp_gateway_w.Admin.{Server, store_key, get_server}
use mcp_gateway_w.Admin.Stored.{IsStored}
use mcp_gateway_w.Admin.Handlers.{Handlers, State, added}
use mcp_gateway_w.Admin.Credentials.{stored_org, put_org_credentials}
use mcp_gateway_w.Admin.Rotation.{stored_org-IsRotated}
use mcp_gateway_w.Admin.Changes.{IsRotated}

-- The newest event adds a server of a served type.
replay-added :
    {R : Type 0} (sv : Gateway.Server R) (log : List (R × Event)) (s : Server) (es : List Event)
    → map (λ x. x.1) log ≡ added s ∷ es
    → IsServed s.server_type
    → registered (replay sv log new_gateway).catalog s.org_id s.slug ≡ true
unfolding replay added
replay-added sv [] s es q t = absurd (ground (arith, q))
replay-added sv ((secrets, x) ∷ log) s es q t =
    let p : x ≡ added s = cc (q) in
    subst
      (λ x.
        registered (apply_server_event sv secrets (replay sv log new_gateway) x).catalog s.org_id
          s.slug
        ≡ true)
      (sym p)
      (ground (
        arith,
        eq_refl s.org_id,
        eq_refl s.slug,
        registered-upsert sv secrets (replay sv log new_gateway) (added s) s.org_id s.slug refl t,
      ))

module _ {R : Type 0} (sv : Gateway.Server R) {S : Type 0} (h : Handlers S) where
  put_org_credentials-IsRotated :
      (st : State S) (org id : Text) (p : Option Principal) (s : Server) (v : Dict Text)
      → IsStored st.store
      → Lacks b'/' org
      → get_server st.store org id ≡ some s
      → (h.secrets.put st.secrets (org_ref org id) v).0 ≡ true
      → let st1 = (put_org_credentials h st org p id (some s) (some v)).1 in
        IsRotated org id s st.store st1.store st.published st1.published
  unfolding put_org_credentials get_server
  put_org_credentials-IsRotated st org id p s v w l e ok =
      let secrets = (h.secrets.put st.secrets (org_ref org id) v).1 in
      subst
        (λ b.
          IsRotated org id s st.store (stored_org h st org p id s (b, secrets)).1.store st.published
            (stored_org h st org p id s (b, secrets)).1.published)
        (sym ok) (stored_org-IsRotated h org st p id s secrets e w l)

  -- Storing the credential that an organization shares for a disabled server of a served type makes a
  -- gateway which applies what is published serve this server's slug, though the store still has it
  -- disabled.
  pub put_org_credentials_revives :
      (st : State S) (org id : Text) (p : Option Principal) (s : Server) (v : Dict Text)
      (log : List (R × Event))
      → IsStored st.store
      → Lacks b'/' org
      → get_server st.store org id ≡ some s
      → s.enabled ≡ false
      → IsServed s.server_type
      → (h.secrets.put st.secrets (org_ref org id) v).0 ≡ true
      → let st1 = (put_org_credentials h st org p id (some s) (some v)).1 in
        map (λ x. x.1) log ≡ st1.published
        → (registered (replay sv log new_gateway).catalog s.org_id s.slug ≡ true)
          × (s1 : Server) × (get_server st1.store org id ≡ some s1)
          × (s1.enabled ≡ false)
  unfolding get_server
  put_org_credentials_revives st org id p s v log w l e off t ok q =
      let k = store_key org id in
      let x = put_org_credentials-IsRotated st org id p s v w l e ok in
      let s1 = x.server in
      let t1 : IsServed s1.server_type = subst IsServed (sym x.same_type) t in
      (
        subst (λ o. registered (replay sv log new_gateway).catalog o s.slug ≡ true) x.same.org_id
            (subst (λ y. registered (replay sv log new_gateway).catalog s1.org_id y ≡ true)
              x.same.slug (replay-added sv log s1 st.published (q ∙ x.published) t1)),
        s1,
        ground (arith, ap (λ m. m.by_id) x.store, eq_refl k, lookup-insert k k s1 st.store.by_id),
        x.same_enabled ∙ off,
      )
