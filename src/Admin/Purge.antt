-- ===== src/Admin/Purge.antt =====
-- purge.go: the purge of a deleted organization.
use mcp_gateway_w.Prelude.{
  ◌≡◌, ◌≢◌, refl, ap, ◌∙◌, inl, inr, false, Bool-cases, Option-cases, List, [], ◌∷◌, map, none,
  some, Text, text_eq_iff, eq_refl, arith, All,
}
use mcp_gateway_w.Prelude.Dict.{lookup, erase, lookup-erase}
use mcp_gateway_w.ServerEvents.{Event}
use mcp_gateway_w.Gateway
use mcp_gateway_w.Gateway.{new_gateway, replay}
use mcp_gateway_w.Gateway.Events.{registered}
use mcp_gateway_w.Admin.{Server, store_key, list_servers, delete_server}
use mcp_gateway_w.Admin.Stored.{IsEntry, IsStored, IsStored-erase}
use mcp_gateway_w.Admin.Handlers.{State}
use mcp_gateway_w.Admin.Edits.{purge_one, purge_all, purge_org}
use mcp_gateway_w.Admin.Changes.{delete_server-found}
use mcp_gateway_w.Admin.Agreement.{Agrees}
use mcp_gateway_w.Admin.Propagation.{IsFollowed, dropped-IsFollowed}
use mcp_gateway_w.Admin.Listed.{
  Listed, All-map, delete_server-none, list_servers-Listed, servers_of-covers,
}

module _ {R : Type 0} (sv : Gateway.Server R) {S : Type 0} (org : Text) where
  -- Servers of the organization are dropped, nothing else.
  record IsShrunk (st st1 : State S) : Type 0 where
    stored : IsStored st1.store
    followed : IsFollowed sv st.store st.published → IsFollowed sv st1.store st1.published
    gone : (k : Text) → lookup k st.store.by_id ≡ none → lookup k st1.store.by_id ≡ none
    only :
        (k : Text) (s : Server)
        → lookup k st1.store.by_id ≡ some s
        → lookup k st.store.by_id ≡ some s
    others :
        (k : Text) (s : Server)
        → s.org_id ≢ org
        → lookup k st.store.by_id ≡ some s
        → lookup k st1.store.by_id ≡ some s

  purge_one-IsShrunk :
      (st : State S) (s : Server)
      → IsStored st.store
      → Listed org st.store.by_id s
      → let st1 = (purge_one st s (delete_server st.store org s.id)).1 in
        IsShrunk st st1 × (lookup (store_key org s.id) st1.store.by_id ≡ none)
  unfolding purge_one
  purge_one-IsShrunk st s w (o, inr e) = rw (delete_server-none st.store org s.id e) (
    record {
      stored = w;
      followed = λ f. f;
      gone = λ k f. f;
      only = λ k s f. f;
      others = λ k s n f. f;
    },
    e,
  )
  purge_one-IsShrunk st s w (o, inl e) =
      let k0 = store_key org s.id in
      rw (delete_server-found st.store org s.id s e) (
        record {
          stored = IsStored-erase st.store k0 w;
          followed = λ f.
              dropped-IsFollowed sv st.store (record st.store { by_id = erase k0 st.store.by_id })
                st.published k0 s refl w e f;
          gone = λ k f. ground (arith, f, lookup-erase k0 k st.store.by_id);
          only = λ k t f. ground (arith, f, lookup-erase k0 k st.store.by_id);
          others = λ k t n f.
              ground (arith, e, f, o, text_eq_iff k0 k, lookup-erase k0 k st.store.by_id);
        },
        ground (arith, eq_refl k0, lookup-erase k0 k0 st.store.by_id),
      )

  purge_all-IsShrunk :
      (ss : List Server) (st : State S)
      → IsStored st.store
      → All (Listed org st.store.by_id) ss
      → let st1 = (purge_all ss st org).1 in
        IsShrunk st st1 × All (λ s. lookup (store_key org s.id) st1.store.by_id ≡ none) ss
  unfolding purge_all
  purge_all-IsShrunk [] st w a = (
    record {
      stored = w;
      followed = λ f. f;
      gone = λ k f. f;
      only = λ k s f. f;
      others = λ k s n f. f;
    },
    tt,
  )
  purge_all-IsShrunk (s ∷ ss) st w (here, a) =
      let (one, none1) = purge_one-IsShrunk st s w here in
      let st1 = (purge_one st s (delete_server st.store org s.id)).1 in
      let still =
        All-map (Listed org st.store.by_id) (Listed org st1.store.by_id) ss
          (λ t (o, l). (
            o,
            elim l [
              | inl e ↦ elim (Option-cases (lookup (store_key org t.id) st1.store.by_id)) [
                | inl n ↦ inr n
                | inr (u, f) ↦ inl (ground (arith, e, f, one.only (store_key org t.id) u f))
              ]
              | inr n ↦ inr (one.gone (store_key org t.id) n)
            ],
          ))
          a in
      let (rest, all) = purge_all-IsShrunk ss st1 one.stored still in
      (
        record {
          stored = rest.stored;
          followed = λ f. rest.followed (one.followed f);
          gone = λ k f. rest.gone k (one.gone k f);
          only = λ k t f. one.only k t (rest.only k t f);
          others = λ k t n f. rest.others k t n (one.others k t n f);
        },
        (rest.gone (store_key org s.id) none1, all),
      )

  left_none :
      (st st1 : State S) (k : Text) (s : Server)
      → IsStored st.store
      → lookup k st1.store.by_id ≡ some s
      → lookup k st.store.by_id ≡ some s
      → s.org_id ≡ org
      → All (λ t. lookup (store_key org t.id) st1.store.by_id ≡ none) (list_servers st.store org)
      → ⊥
  unfolding list_servers
  left_none st st1 k s w e e0 o all =
      let none1 =
        servers_of-covers (λ t. lookup (store_key org t.id) st1.store.by_id ≡ none) org
          st.store.by_id k s e0 o all in
      let at : k ≡ store_key org s.id =
        IsEntry.key (w.entry k s e0) ∙ ap (λ x. store_key x s.id) o in
      ground (arith, e, none1, at)

  agree :
      (st1 : State S) (log : List (R × Event))
      → map (λ x. x.1) log ≡ st1.published
      → IsFollowed sv st1.store st1.published
      → Agrees st1.store (replay sv log new_gateway).catalog
  unfolding IsFollowed
  agree st1 log q f = f log q

  -- After the purge.
  pub record IsPurged (st st1 : State S) : Type 0 where
    pub empty : (k : Text) (s : Server) → lookup k st1.store.by_id ≡ some s → s.org_id ≢ org
    pub others :
        (k : Text) (s : Server)
        → s.org_id ≢ org
        → (lookup k st.store.by_id ≡ some s → lookup k st1.store.by_id ≡ some s)
          × (lookup k st1.store.by_id ≡ some s → lookup k st.store.by_id ≡ some s)
    pub stored : IsStored st1.store
    pub followed : IsFollowed sv st1.store st1.published
    pub unregistered :
        (log : List (R × Event)) (slug : Text)
        → map (λ x. x.1) log ≡ st1.published
        → registered (replay sv log new_gateway).catalog org slug ≡ false

  -- The kill switch for an organization: a purge leaves no server of it and keeps those of all the
  -- others, and a gateway that followed the store and applies what the purge published serves no slug
  -- of the organization any more.
  pub purge_org-IsPurged :
      (st : State S)
      → IsStored st.store
      → IsFollowed sv st.store st.published
      → IsPurged st (purge_org st org).1
  unfolding purge_org
  purge_org-IsPurged st w f =
      let (shrunk, all) =
        purge_all-IsShrunk (list_servers st.store org) st w (list_servers-Listed st.store org w) in
      let st1 = (purge_all (list_servers st.store org) st org).1 in
      let empty : (k : Text) (s : Server) → lookup k st1.store.by_id ≡ some s → s.org_id ≢ org =
        λ k s e o. left_none st st1 k s w e (shrunk.only k s e) o all in
      let follows = shrunk.followed f in
      record {
        empty = empty;
        others = λ k s n. (shrunk.others k s n, shrunk.only k s);
        stored = shrunk.stored;
        followed = follows;
        unregistered = λ log slug q.
            elim (Bool-cases (registered (replay sv log new_gateway).catalog org slug)) [
              | inl b ↦
                  let x = (agree st1 log q follows org slug).0 b in
                  absurd (empty x.key x.server x.found x.org_id)
              | inr b ↦ b
            ];
      }
