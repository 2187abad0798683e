-- ===== src/Gateway/Credentials.antt =====
-- creds.go with pkg/secrets/secrets.go: whose credentials a server is given.
use mcp_gateway_w.Prelude.{
  ◌≡◌, sym, ap, ◌∙◌, ◌&&◌, Text, lit, text_beq, text_eq_iff, Lacks, arith, if◌then◌else◌,
}
use mcp_gateway_w.Prelude.Dict.{Dict, lookup, lookup-insert}
use mcp_gateway_w.Secrets.{mem_store, org_ref, user_ref}
use mcp_gateway_w.Secrets.Refs.{org_ref-injective, org_ref-user_ref}
use mcp_gateway_w.ServerEvents.{Event}
use mcp_gateway_w.Gateway.{Server, resolve_credentials, provide}

-- After the shared credential of a server was stored in memory, the gateway resolves it for this
-- server if it shares credentials, and for every other server, and for every user, what it resolved
-- before. Organizations and the server's identity have no slash.
resolve_credentials-put :
    (sv : Server (Dict (Dict Text))) (m : Dict (Dict Text)) (org id user : Text) (v : Dict Text)
    (e : Event)
    → sv.secrets_api ≡ mem_store
    → Lacks b'/' org
    → Lacks b'/' e.org_id
    → Lacks b'/' id
    → let m1 = (mem_store.put m (org_ref org id) v).1 in
      (resolve_credentials mem_store m1 e ≡ (
        if text_beq org e.org_id
          && text_beq id e.id
          && text_beq e.credential_mode (lit "org_shared")
        then v
        else resolve_credentials mem_store m e))
      × (provide sv m1 e user ≡ provide sv m e user)
unfolding resolve_credentials provide mem_store
resolve_credentials-put sv m org id user v e q l l' n =
    let r = user_ref e.org_id e.id user in
    let m1 = (mem_store.put m (org_ref org id) v).1 in
    let kept : lookup r m1 ≡ lookup r m = ground (
      arith,
      text_eq_iff (org_ref org id) r,
      org_ref-user_ref org e.org_id id e.id user l l' n,
      lookup-insert (org_ref org id) r v m,
    ) in
    let same : sv.secrets_api.get m1 r ≡ sv.secrets_api.get m r =
      ap (λ a. a.get m1 r) q ∙ (kept ∙ sym (ap (λ a. a.get m r) q)) in
    (
      ground (
        arith,
        text_eq_iff org e.org_id,
        text_eq_iff id e.id,
        text_eq_iff (org_ref org id) (org_ref e.org_id e.id),
        org_ref-injective org e.org_id id e.id l l',
        lookup-insert (org_ref org id) (org_ref e.org_id e.id) v m,
      ),
      ground (arith, same),
    )
