-- ===== src/Admin/Propagation.antt =====
-- The admin API with the gateway of Gateway.antt: the catalog serves what the store has enabled. The
-- gateway applies every published event in order, with the secrets it reads then.
use mcp_gateway_w.Prelude.{
  suc, ◌≡◌, ◌≢◌, refl, sym, ap, subst, ◌∙◌, inl, inr, true, false, Bool-cases, List, [], ◌∷◌, map,
  Option, some, Text, eq_refl, Lacks, arith, if◌then◌else◌,
}
use mcp_gateway_w.Prelude.Dict.{lookup, insert, erase, lookup-insert}
use mcp_gateway_w.Authz.{Principal}
use mcp_gateway_w.ServerEvents.{Event}
use mcp_gateway_w.Gateway
use mcp_gateway_w.Gateway.{new_gateway, apply_server_event, replay}
use mcp_gateway_w.Gateway.Events.{
  registered, registered-upsert, registered-removal, registered-credential_changed,
}
use mcp_gateway_w.Admin.{Server, Store, store_key, server_id, slug_taken, get_server}
use mcp_gateway_w.Admin.Stored.{IsStored, lookup-next}
use mcp_gateway_w.Admin.Handlers.{Handlers, State, added, removed, rotated}
use mcp_gateway_w.Admin.Api.{Request, handle}
use mcp_gateway_w.Admin.Changes.{
  IsKnown, Change, quiet, adds, replaces, rotates, drops, rotates_user, create_server-free,
}
use mcp_gateway_w.Admin.Requests.{rotated_id, handle-Change}
use mcp_gateway_w.Admin.Invariant.{Change-IsStored}
use mcp_gateway_w.Admin.Agreement.{Agrees, Agrees-insert, Agrees-erase}

-- Every enabled server is of a type that the gateway serves.
unfoldable pub AllKnown : Store → Type 0
AllKnown m =
    (k : Text) (s : Server) → lookup k m.by_id ≡ some s → s.enabled ≡ true → IsKnown s.server_type

module _ {R : Type 0} (sv : Gateway.Server R) where
  -- A gateway that has applied all the published events, whatever secrets it read, agrees with the
  -- store.
  unfoldable pub IsFollowed : Store → List Event → Type 0
  IsFollowed m es =
      (log : List (R × Event))
      → map (λ x. x.1) log ≡ es
      → Agrees m (replay sv log new_gateway).catalog

  -- One more event.
  IsFollowed-cons :
      (m m' : Store) (es : List Event) (e : Event)
      → IsFollowed m es
      → ((secrets : R) (g : Gateway.State)
          → Agrees m g.catalog
          → Agrees m' (apply_server_event sv secrets g e).catalog)
      → IsFollowed m' (e ∷ es)
  unfolding IsFollowed replay
  IsFollowed-cons m m' es e f step [] q = absurd (ground (arith, q))
  IsFollowed-cons m m' es e f step ((secrets, x) ∷ log) q =
      let p : x ≡ e = cc (q) in
      subst (λ x. Agrees m' (apply_server_event sv secrets (replay sv log new_gateway) x).catalog)
        (sym p) (step secrets (replay sv log new_gateway) (f log (cc (q))))

  -- An enabled server of a known type is put, and announced.
  added-IsFollowed :
      (m m' : Store) (es : List Event) (k : Text) (s : Server)
      → m'.by_id ≡ insert k s m.by_id
      → IsStored m'
      → ((old : Server)
          → lookup k m.by_id ≡ some old
          → (s.org_id ≡ old.org_id) × (s.slug ≡ old.slug))
      → s.enabled ≡ true
      → IsKnown s.server_type
      → IsFollowed m es
      → IsFollowed m' (added s ∷ es)
  unfolding added
  added-IsFollowed m m' es k s q w same on t f = IsFollowed-cons m m' es (added s) f (λ secrets g a.
      Agrees-insert m m' k s g.catalog (apply_server_event sv secrets g (added s)).catalog q w same
        (λ org slug. ground (arith, on, registered-upsert sv secrets g (added s) org slug refl t))
        a)

  -- A disabled server is put, and its removal announced.
  removed-IsFollowed :
      (m m' : Store) (es : List Event) (k : Text) (s : Server)
      → m'.by_id ≡ insert k s m.by_id
      → IsStored m'
      → ((old : Server)
          → lookup k m.by_id ≡ some old
          → (s.org_id ≡ old.org_id) × (s.slug ≡ old.slug))
      → s.enabled ≡ false
      → IsFollowed m es
      → IsFollowed m' (removed s ∷ es)
  unfolding removed
  removed-IsFollowed m m' es k s q w same off f =
      IsFollowed-cons m m' es (removed s) f (λ secrets g a.
        Agrees-insert m m' k s g.catalog (apply_server_event sv secrets g (removed s)).catalog q w
          same
          (λ org slug.
            ground (arith, off, registered-removal sv secrets g (removed s) org slug refl))
          a)

  -- A stored server is dropped, and its removal announced.
  pub dropped-IsFollowed :
      (m m' : Store) (es : List Event) (k : Text) (old : Server)
      → m'.by_id ≡ erase k m.by_id
      → IsStored m
      → lookup k m.by_id ≡ some old
      → IsFollowed m es
      → IsFollowed m' (removed old ∷ es)
  unfolding removed
  dropped-IsFollowed m m' es k old q w e f = IsFollowed-cons m m' es (removed old) f (λ secrets g a.
      Agrees-erase m m' k old g.catalog (apply_server_event sv secrets g (removed old)).catalog q w
        e (λ org slug. registered-removal sv secrets g (removed old) org slug refl) a)

  Change-IsFollowed :
      (rot : Option Text) (org : Text) (m m' : Store) (es es' : List Event)
      → Change rot org m m' es es'
      → IsStored m
      → Lacks b'/' org
      → AllKnown m'
      → ((id : Text) (old : Server)
          → rot ≡ some id
          → lookup (store_key org id) m.by_id ≡ some old
          → old.enabled ≡ true)
      → IsFollowed m es
      → IsFollowed m' es'
  unfolding AllKnown added removed rotated
  Change-IsFollowed rot org m m' es es' (quiet q r) w l known on f =
      subst (λ m'. IsFollowed m' es') (sym q) (subst (λ es'. IsFollowed m es') (sym r) f)
  Change-IsFollowed rot org m m' es es' (adds s o free e t q r) w l known on f =
      let s1 : Server = record s { id = server_id (suc m.seq) } in
      let q1 =
        q
        ∙ ap (λ x. x.1)
            (create_server-free m s
              (subst (λ x. slug_taken m.by_id x s.slug ≡ false) (sym o) free)) in
      let next = lookup-next m s.org_id w (subst (Lacks b'/') (sym o) l) in
      subst (IsFollowed m') (sym r) (
        added-IsFollowed m m' es (store_key s.org_id (server_id (suc m.seq))) s1
          (ap (λ x. x.by_id) q1) (Change-IsStored rot org m m' es es' (adds s o free e t q r) w l)
          (λ old there. absurd (ground (arith, there, next))) e t f)
  Change-IsFollowed rot org m m' es es' (replaces id old s e same q r) w l known on f =
      let w' = Change-IsStored rot org m m' es es' (replaces id old s e same q r) w l in
      let keeps : (t : Server)
          → lookup (store_key org id) m.by_id ≡ some t
          → (s.org_id ≡ t.org_id) × (s.slug ≡ t.slug) =
        λ t there. ground (arith, e, there, same.org_id, same.slug) in
      let there : lookup (store_key org id) m'.by_id ≡ some s = ground (
        arith,
        ap (λ x. x.by_id) q,
        eq_refl (store_key org id),
        lookup-insert (store_key org id) (store_key org id) s m.by_id,
      ) in
      elim (Bool-cases s.enabled) [
        | inl b ↦
            subst (IsFollowed m') (sym (r ∙ ap (λ x. (if x then added s else removed s) ∷ es) b)) (
              added-IsFollowed m m' es (store_key org id) s (ap (λ x. x.by_id) q) w' keeps b
                (known (store_key org id) s there b) f)
        | inr b ↦
            subst (IsFollowed m') (sym (r ∙ ap (λ x. (if x then added s else removed s) ∷ es) b))
              (removed-IsFollowed m m' es (store_key org id) s (ap (λ x. x.by_id) q) w' keeps b f)
      ]
  Change-IsFollowed rot org m m' es es' (rotates id old s z e same p t q r) w l known on f =
      let w' = Change-IsStored rot org m m' es es' (rotates id old s z e same p t q r) w l in
      let there : lookup (store_key org id) m'.by_id ≡ some s = ground (
        arith,
        ap (λ x. x.by_id) q,
        eq_refl (store_key org id),
        lookup-insert (store_key org id) (store_key org id) s m.by_id,
      ) in
      let b = p ∙ on id old z e in
      subst (IsFollowed m') (sym r) (
        added-IsFollowed m m' es (store_key org id) s (ap (λ x. x.by_id) q) w'
          (λ t there. ground (arith, e, there, same.org_id, same.slug)) b
          (known (store_key org id) s there b) f)
  Change-IsFollowed rot org m m' es es' (drops id old e q r) w l known on f =
      subst (IsFollowed m') (sym r)
        (dropped-IsFollowed m m' es (store_key org id) old (ap (λ x. x.by_id) q) w e f)
  Change-IsFollowed rot org m m' es es' (rotates_user id [] old e u q r) w l known on f =
      absurd (u refl)
  Change-IsFollowed rot org m m' es es' (rotates_user id (b ∷ user) old e u q r) w l known on f =
      subst (IsFollowed m') (sym r) (
        IsFollowed-cons m m' es (rotated old (b ∷ user)) f (λ secrets g a.
          subst (λ m'. Agrees m' (apply_server_event sv secrets g (rotated old (b ∷ user))).catalog)
            (sym q)
            (λ org1 slug.
              let same =
                registered-credential_changed sv secrets g (rotated old (b ∷ user)) org1 slug
                  refl in
              ground (arith, same, a org1 slug))))

  -- A request to an organization without a slash in its name, by an administrator with an identity,
  -- keeps the gateway in agreement with the store: after it has applied what was published it serves
  -- exactly the slugs of the enabled servers. The request leaves no enabled server of an unknown type,
  -- and does not set or clear the shared credential of a disabled server.
  pub handle-IsFollowed :
      {S : Type 0} (h : Handlers S) (st : State S) (org : Text) (p : Principal) (req : Request)
      → IsStored st.store
      → Lacks b'/' org
      → p.user_id ≢ []
      → let st1 = (handle h st org (some p) req).1 in
        AllKnown st1.store
        → ((id : Text) (old : Server)
            → rotated_id req ≡ some id
            → get_server st.store org id ≡ some old
            → old.enabled ≡ true)
        → IsFollowed st.store st.published
        → IsFollowed st1.store st1.published
  unfolding get_server
  handle-IsFollowed h st org p req w l u known on f =
      Change-IsFollowed (rotated_id req) org st.store _ st.published _
        (handle-Change h org st p req w l u) w l known on f

  -- A new gateway agrees with an empty store.
  pub IsFollowed-new : (m : Store) → m.by_id ≡ [] → IsFollowed m []
  unfolding IsFollowed replay registered lookup
  IsFollowed-new m q [] e =
      λ org slug. (λ on. absurd (ground (arith, on)), λ x. absurd (ground (arith, q, x.found)))
  IsFollowed-new m q (x ∷ log) e = absurd (ground (arith, e))
