-- ===== src/Authz/Jwks/Published.antt =====
-- jwks.go: where the keys that tokens are checked with come from.
use mcp_gateway_w.Prelude.{
  ℕ, ◌+◌, ◌-◌, ◌≤◌, ◌<◌, ◌≡◌, refl, sym, ap, subst, ◌∙◌, inl, inr, true, false, Bool, Bool-cases,
  Option-cases, List, [], ◌∷◌, Option, none, some, Text, text_beq, text_eq_iff, ltb, arith,
  if◌then◌else◌,
}
use mcp_gateway_w.Prelude.Dict.{lookup, lookup-insert}
use mcp_gateway_w.Authz.Jwks.{
  PublicKey, Jwk, Entry, Document, Network, State, ttl, collect_keys, certs_url, cached_in, cached,
  store_keys, new_jwks_key_source, received, fetch, refresh, refreshed, looked_up, key_for,
}
use mcp_gateway_w.Authz.Jwks.Collected.{Has, Publishes, collect_keys-Publishes}

module _ {W : Type 0} (net : Network W) where
  -- The entry of an issuer was made of a document that came from the issuer's own URL.
  abbrev pub Comes : Text → Entry → List Document → Type 0
  Comes issuer e docs =
      (doc : Document) × Has doc docs
      × (doc.url ≡ certs_url issuer)
      × (net.clock doc.reading ≡ e.fetched_at)
      × (e.keys ≡ collect_keys [] doc.published)

  abbrev pub IsSourced : State W → Type 0
  IsSourced st =
      (issuer : Text) (e : Entry) → lookup issuer st.cache ≡ some e → Comes issuer e st.fetched

  -- An RSA key of that id is published in a document that was requested of the issuer's own URL. The
  -- clock was read right after it came, at most ten minutes before a reading during the call.
  abbrev pub IsPublished : Text → Text → PublicKey → State W → State W → Type 0
  IsPublished issuer kid k st st1 =
      (doc : Document) × (n : ℕ) × Has doc st1.fetched
      × (doc.url ≡ certs_url issuer)
      × Publishes doc.published kid k
      × (st.readings ≤ n)
      × (n < st1.readings)
      × (net.clock n ≤ net.clock doc.reading + ttl)

  published_in :
      (ks : List Jwk) (kid : Text) (k : PublicKey)
      → lookup kid (collect_keys [] ks) ≡ some k
      → Publishes ks kid k
  unfolding lookup
  published_in ks kid k e = elim (collect_keys-Publishes [] ks kid k e) [
    | inl x ↦ absurd (cc x)
    | inr x ↦ x
  ]

  cached_in-IsPublished :
      (st : State W) (issuer kid : Text) (k : PublicKey) (o : Option Entry)
      → ((e : Entry) → o ≡ some e → Comes issuer e st.fetched)
      → (cached_in net st kid o).0 ≡ some k
      → IsPublished issuer kid k st (cached_in net st kid o).1
  unfolding cached_in
  cached_in-IsPublished st issuer kid k none h q = cc
  cached_in-IsPublished st issuer kid k (some e) h q =
      elim (Bool-cases (ltb ttl (net.clock st.readings - e.fetched_at))) [
        | inl x ↦ absurd (ground (arith, x, q))
        | inr x ↦
            let (doc, i, u, t, ks) = h e refl in
            let q' : lookup kid e.keys ≡ some k = rw x at q in
            rw x (
              doc,
              st.readings,
              i,
              u,
              published_in doc.published kid k (subst (λ d. lookup kid d ≡ some k) ks q'),
              omega arith,
              omega arith,
              ground (arith, x, t),
            )
      ]

  cached_in-IsSourced :
      (st : State W) (kid : Text) (o : Option Entry)
      → IsSourced st
      → IsSourced (cached_in net st kid o).1 × (st.readings ≤ (cached_in net st kid o).1.readings)
  unfolding cached_in
  cached_in-IsSourced st kid none s = (s, omega arith)
  cached_in-IsSourced st kid (some e) s =
      elim (Bool-cases (ltb ttl (net.clock st.readings - e.fetched_at))) [
        | inl x ↦ rw x (s, omega arith)
        | inr x ↦ rw x (s, omega arith)
      ]

  store_keys-readings :
      (st : State W) (issuer : Text) (ks : List Jwk)
      → st.readings ≤ (store_keys net st issuer ks).readings
  unfolding store_keys
  store_keys-readings st issuer ks = omega arith

  store_keys-IsSourced :
      (st : State W) (issuer : Text) (ks : List Jwk)
      → IsSourced st
      → Has (record { url = certs_url issuer; reading = st.readings; published = ks }) st.fetched
      → IsSourced (store_keys net st issuer ks)
  unfolding store_keys
  store_keys-IsSourced st issuer ks s came other e q = elim (Bool-cases (text_beq issuer other)) [
    | inl x ↦
        let i = (text_eq_iff issuer other).0 x in
        let new : Entry = record {
          keys = collect_keys [] ks;
          fetched_at = net.clock st.readings;
        } in
        let r : some new ≡ some e =
          sym (ap (λ (t : Bool). if t then some new else lookup other st.cache) x)
          ∙ (sym (lookup-insert issuer other new st.cache) ∙ q) in
        (
          record { url = certs_url issuer; reading = st.readings; published = ks },
          came,
          ap certs_url i,
          cc,
          cc,
        )
    | inr x ↦
        let new : Entry = record {
          keys = collect_keys [] ks;
          fetched_at = net.clock st.readings;
        } in
        let r : lookup other st.cache ≡ some e =
          sym (ap (λ (t : Bool). if t then some new else lookup other st.cache) x)
          ∙ (sym (lookup-insert issuer other new st.cache) ∙ q) in
        s other e r
  ]

  -- A request adds at most the document that came, under the URL that was requested.
  received-IsSourced :
      (st : State W) (url : Text) (w : W) (o : Option (List Jwk))
      → IsSourced st
      → let r = received net st url w o in
        IsSourced r.1
        × (r.1.readings ≡ st.readings)
        × ((ks : List Jwk)
            → r.0 ≡ some ks
            → Has (record { url = url; reading = r.1.readings; published = ks }) r.1.fetched)
  unfolding received
  received-IsSourced st url w none s = (s, refl, λ ks e. absurd (cc e))
  received-IsSourced st url w (some ks) s = (
    λ issuer e q. let (doc, i, u, t, k) = s issuer e q in (doc, inr i, u, t, k),
    refl,
    λ ks' e.
        let p : ks ≡ ks' = cc e in
        inl (
          ap (λ (x : List Jwk). record { url = url; reading = st.readings; published = x })
            (sym p)),
  )

  refresh-IsSourced :
      (st : State W) (issuer : Text)
      → IsSourced st
      → IsSourced (refresh net st issuer).1 × (st.readings ≤ (refresh net st issuer).1.readings)
  unfolding refresh fetch
  refresh-IsSourced st issuer s =
      let r = fetch net st (certs_url issuer) in
      let (a, b, c) = received-IsSourced st (certs_url issuer) _ _ s in
      elim (Option-cases r.0) [
        | inl x ↦ rw (x, refresh) (a, omega (arith, b))
        | inr (ks, x) ↦
            rw (x, refresh)
              (
                store_keys-IsSourced r.1 issuer ks a (c ks x),
                omega (arith, b, store_keys-readings r.1 issuer ks),
              )
      ]

  -- What a call's answer and state are to be, from a state on.
  abbrev Good : State W → Text → Text → Option PublicKey × State W → Type 0
  Good st issuer kid r =
      IsSourced r.1 × ((k : PublicKey) → r.0 ≡ some k → IsPublished issuer kid k st r.1)

  cached-Good :
      (st0 st : State W) (issuer kid : Text)
      → st0.readings ≤ st.readings
      → IsSourced st
      → Good st0 issuer kid (cached net st issuer kid)
  unfolding cached
  cached-Good st0 st issuer kid l s = (
    (cached_in-IsSourced st kid (lookup issuer st.cache) s).0,
    λ k q.
        let (doc, n, i, u, p, a, z, t) =
          cached_in-IsPublished st issuer kid k (lookup issuer st.cache) (s issuer) q in
        (doc, n, i, u, p, omega arith, z, t),
  )

  refreshed-Good :
      (st0 : State W) (issuer kid : Text) (r : Bool × State W)
      → IsSourced r.1
      → st0.readings ≤ r.1.readings
      → Good st0 issuer kid (refreshed net issuer kid r)
  unfolding refreshed
  refreshed-Good st0 issuer kid (false, st) s l = (s, λ k q. cc)
  refreshed-Good st0 issuer kid (true, st) s l = cached-Good st0 st issuer kid l s

  looked_up-Good :
      (st0 : State W) (issuer kid : Text) (r : Option PublicKey × State W)
      → Good st0 issuer kid r
      → st0.readings ≤ r.1.readings
      → Good st0 issuer kid (looked_up net issuer kid r)
  unfolding looked_up
  looked_up-Good st0 issuer kid (some k, st) g l = g
  looked_up-Good st0 issuer kid (none, st) g l =
      let (s, m) = refresh-IsSourced st issuer g.0 in
      refreshed-Good st0 issuer kid (refresh net st issuer) s (omega (arith, l, m))

  key_for-Good :
      (st : State W) (issuer kid : Text)
      → IsSourced st
      → Good st issuer kid (key_for net st issuer kid)
  unfolding key_for cached
  key_for-Good st issuer kid s =
      looked_up-Good st issuer kid (cached net st issuer kid)
        (cached-Good st st issuer kid (omega arith) s)
        (cached_in-IsSourced st kid (lookup issuer st.cache) s).1

  -- Calls one after the other, each of an issuer and a key id.
  unfoldable pub run : State W → List (Text × Text) → State W
  unfolding key_for
  run st [] = st
  run st ((issuer, kid) ∷ cs) = run (key_for net st issuer kid).1 cs

  run-IsSourced : (st : State W) (cs : List (Text × Text)) → IsSourced st → IsSourced (run st cs)
  unfolding run
  run-IsSourced st [] s = s
  run-IsSourced st ((issuer, kid) ∷ cs) s =
      run-IsSourced (key_for net st issuer kid).1 cs (key_for-Good st issuer kid s).0

  -- After any calls, a key that is answered for an issuer and an id is published as an RSA key of that
  -- id in a document that was requested of this issuer's own URL. What the clock showed right after the
  -- document came is at most ten minutes before what it shows at some reading during the call.
  pub key_for-IsPublished :
      (w : W) (cs : List (Text × Text)) (issuer kid : Text) (k : PublicKey)
      → let st = run (new_jwks_key_source w) cs in
        (key_for net st issuer kid).0 ≡ some k
        → IsPublished issuer kid k st (key_for net st issuer kid).1
  unfolding new_jwks_key_source lookup
  key_for-IsPublished w cs issuer kid k q =
      let s = run-IsSourced (new_jwks_key_source w) cs (λ i e h. cc) in
      (key_for-Good (run (new_jwks_key_source w) cs) issuer kid s).1 k q
