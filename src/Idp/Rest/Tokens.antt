-- ===== src/Idp/Rest/Tokens.antt =====
-- rest.go: how long a token is used, and how often a request is sent.
use mcp_gateway_w.Prelude.{
  ℕ, suc, ◌+◌, ◌-◌, ◌*◌, ◌≤◌, ◌<◌, ◌≡◌, ◌≢◌, refl, sym, ap, ◌∙◌, inl, inr, List, [], ◌∷◌, Option,
  none, some, Text, nat_beq, ltb, is_empty, length, Bool-cases, ltb→lt, arith, ℤ, pos_part,
}
use mcp_gateway_w.Idp.{Answer, ok, failed}
use mcp_gateway_w.Idp.Rest.{
  Body, RestClient, Request, token_request, admin_request, Exchanged, no_answer, answer, Network,
  State, token_url, second, send, ttl, store_token, token_answered, fetch_token, access_token,
  with_token, do_once, invalidate, retried, do_request,
}

-- How many of the requests are of the admin API.
pub admin_requests : List Request → ℕ
admin_requests [] = 0
admin_requests (token_request url id secret ∷ qs) = admin_requests qs
admin_requests (admin_request method url authorization body ∷ qs) = suc (admin_requests qs)

-- At most `n` more requests, of which at most `k` are of the admin API.
abbrev pub IsWithin : {W : Type 0} → ℕ → ℕ → State W → State W → Type 0
IsWithin n k st st1 =
    (length st1.sent ≤ length st.sent + n) × (admin_requests st1.sent ≤ admin_requests st.sent + k)

ttl_long : (z : ℤ) → 35 ≤ pos_part z → ttl z ≡ pos_part z - 30
unfolding ttl
ttl_long z h = ground arith

module _ {W : Type 0} (net : Network W) where
  store_token-sent :
      (st : State W) (o : Option (Text × ℤ)) → (store_token net st o).1.sent ≡ st.sent
  unfolding store_token
  store_token-sent st none = refl
  store_token-sent st (some (tok, e)) = refl

  token_answered-sent : (a : Exchanged) (st : State W) → (token_answered net a st).1.sent ≡ st.sent
  unfolding token_answered
  token_answered-sent (no_answer msg) st = refl
  token_answered-sent (answer r) st = ground (arith, store_token-sent st (net.decode_token r.body))

  fetch_token-sent :
      (st : State W)
      → let c = st.client in
        (fetch_token net st).1.sent
        ≡ token_request (token_url c) c.client_id c.client_secret ∷ st.sent
  unfolding fetch_token send
  fetch_token-sent st =
      let c = st.client in
      let r = send net st (token_request (token_url c) c.client_id c.client_secret) in
      token_answered-sent r.0 r.1

  fetch_token-IsWithin : (st : State W) → IsWithin 1 0 st (fetch_token net st).1
  unfolding admin_requests
  fetch_token-IsWithin st = rw (fetch_token-sent st) (omega arith, omega arith)

  access_token-IsWithin : (st : State W) → IsWithin 1 0 st (access_token net st).1
  unfolding access_token
  access_token-IsWithin st = elim (Bool-cases (is_empty st.client.token)) [
    | inl e ↦ rw e (fetch_token-IsWithin st)
    | inr e ↦ elim (Bool-cases (ltb (net.clock st.readings) st.client.exp)) [
      | inl f ↦ rw (e, f) (omega arith, omega arith)
      | inr f ↦ rw (e, f) (fetch_token-IsWithin (record st { readings = suc st.readings }))
    ]
  ]

  with_token-IsWithin :
      (method path : Text) (body : Option Body) (r : Answer Text × State W)
      → IsWithin 1 1 r.1 (with_token net method path body r).1
  unfolding with_token send admin_requests
  with_token-IsWithin method path body (failed msg, st) = (omega arith, omega arith)
  with_token-IsWithin method path body (ok tok, st) = (omega arith, omega arith)

  do_once-IsWithin :
      (st : State W) (method path : Text) (body : Option Body)
      → IsWithin 2 1 st (do_once net st method path body).1
  unfolding do_once
  do_once-IsWithin st method path body =
      let one = access_token-IsWithin st in
      let two = with_token-IsWithin method path body (access_token net st) in
      (omega (arith, one, two), omega (arith, one, two))

  retried-IsWithin :
      (method path : Text) (body : Option Body) (r : Exchanged × State W)
      → IsWithin 2 1 r.1 (retried net method path body r).1
  unfolding retried invalidate
  retried-IsWithin method path body (no_answer msg, st) = (omega arith, omega arith)
  retried-IsWithin method path body (answer r, st) = elim (Bool-cases (nat_beq r.status 403)) [
    | inl e ↦ rw e (do_once-IsWithin (invalidate st) method path body)
    | inr e ↦ rw e (omega arith, omega arith)
  ]

  -- A call ends after at most four requests, of which at most two are of the admin API, whatever is
  -- answered.
  do_request-IsWithin :
      (st : State W) (method path : Text) (body : Option Body)
      → IsWithin 4 2 st (do_request net st method path body).1
  unfolding do_request
  do_request-IsWithin st method path body =
      let one = do_once-IsWithin st method path body in
      let two = retried-IsWithin method path body (do_once net st method path body) in
      (omega (arith, one, two), omega (arith, one, two))

  one_more : (q : Request) (qs : List Request) → q ∷ qs ≢ qs
  one_more q qs e = ground (arith, ap length e)

  -- Without a request the cached token is answered, before it is to be renewed.
  access_token-cached :
      (st : State W)
      → (access_token net st).1.sent ≡ st.sent
      → ((access_token net st).0 ≡ ok st.client.token) × (net.clock st.readings < st.client.exp)
  unfolding access_token
  access_token-cached st q = elim (Bool-cases (is_empty st.client.token)) [
    | inl e ↦ absurd (one_more _ st.sent (sym (fetch_token-sent st) ∙ (rw e at q)))
    | inr e ↦ elim (Bool-cases (ltb (net.clock st.readings) st.client.exp)) [
      | inl f ↦ rw (e, f) (refl, ltb→lt _ _ f)
      | inr f ↦ absurd (
          one_more _ st.sent
            (sym (fetch_token-sent (record st { readings = suc st.readings })) ∙ (rw (e, f) at q)))
    ]
  ]

  -- A token that is used with no request for another was stored less than its lifetime less thirty
  -- seconds ago, if the lifetime that came with it is at least 35 seconds.
  pub access_token-IsLive :
      (st later : State W) (tok : Text) (expires_in : ℤ)
      → 35 ≤ pos_part expires_in
      → later.client ≡ (store_token net st (some (tok, expires_in))).1.client
      → (access_token net later).1.sent ≡ later.sent
      → ((access_token net later).0 ≡ ok tok)
        × (net.clock later.readings + 30 * second
            < net.clock st.readings + pos_part expires_in * second)
  unfolding store_token
  access_token-IsLive st later tok expires_in h e q =
      let (a, b) = access_token-cached later q in
      let x = ap (λ (c : RestClient). c.exp) e in
      (a ∙ ap (λ (c : RestClient). ok c.token) e, omega (arith, b, x, ttl_long expires_in h))
