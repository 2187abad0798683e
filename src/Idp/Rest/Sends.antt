-- ===== src/Idp/Rest/Sends.antt =====
-- rest.go: what holds of every request that a call of the admin API sends.
use mcp_gateway_w.Prelude.{
  ◌≡◌, sym, subst, inl, inr, ◌++◌, Option, none, some, Text, lit, nat_beq, ltb, is_empty, All,
  Bool-cases, ℤ,
}
use mcp_gateway_w.Idp.{Answer, ok, failed}
use mcp_gateway_w.Idp.Rest.{
  Body, Request, token_url, token_request, admin_request, Exchanged, no_answer, answer, Network,
  State, send, store_token, token_answered, fetch_token, access_token, with_token, do_once,
  invalidate, retried, do_request,
}

-- The client stays that of `base`, and every request is one of `P`.
abbrev pub Keeps : {W : Type 0} → (Request → Type 0) → Text → State W → Type 0
Keeps P base st = (st.client.base ≡ base) × All P st.sent

module _ {W : Type 0} (net : Network W) (P : Request → Type 0) (base : Text)
    (tokens : (url id secret : Text) → P (token_request url id secret)) where
  store_token-Keeps :
      (st : State W) (o : Option (Text × ℤ))
      → Keeps P base st
      → Keeps P base (store_token net st o).1
  unfolding store_token
  store_token-Keeps st none k = k
  store_token-Keeps st (some (tok, e)) k = k

  token_answered-Keeps :
      (a : Exchanged) (st : State W) → Keeps P base st → Keeps P base (token_answered net a st).1
  unfolding token_answered
  token_answered-Keeps (no_answer msg) st k = k
  token_answered-Keeps (answer r) st k = elim (Bool-cases (nat_beq r.status 200)) [
    | inl e ↦ rw e (store_token-Keeps st (net.decode_token r.body) k)
    | inr e ↦ rw e k
  ]

  fetch_token-Keeps : (st : State W) → Keeps P base st → Keeps P base (fetch_token net st).1
  unfolding fetch_token send
  fetch_token-Keeps st k =
      let c = st.client in
      let r = send net st (token_request (token_url c) c.client_id c.client_secret) in
      token_answered-Keeps r.0 r.1 (k.0, (tokens _ _ _, k.1))

  access_token-Keeps : (st : State W) → Keeps P base st → Keeps P base (access_token net st).1
  unfolding access_token
  access_token-Keeps st k = elim (Bool-cases (is_empty st.client.token)) [
    | inl e ↦ rw e (fetch_token-Keeps st k)
    | inr e ↦ elim (Bool-cases (ltb (net.clock st.readings) st.client.exp)) [
      | inl f ↦ rw (e, f) k
      | inr f ↦ rw (e, f) (fetch_token-Keeps _ k)
    ]
  ]

  module _ (method path : Text) (body : Option Body)
      (own : (authorization : Text)
        → P (admin_request method (base ++ path) authorization body)) where
    with_token-Keeps :
        (r : Answer Text × State W)
        → Keeps P base r.1
        → Keeps P base (with_token net method path body r).1
    unfolding with_token send
    with_token-Keeps (failed msg, st) k = k
    with_token-Keeps (ok tok, st) k = (
      k.0,
      (
        subst (λ b. P (admin_request method (b ++ path) (lit "Bearer " ++ tok) body)) (sym k.0)
            (own _),
        k.1,
      ),
    )

    do_once-Keeps :
        (st : State W) → Keeps P base st → Keeps P base (do_once net st method path body).1
    unfolding do_once
    do_once-Keeps st k = with_token-Keeps (access_token net st) (access_token-Keeps st k)

    retried-Keeps :
        (r : Exchanged × State W)
        → Keeps P base r.1
        → Keeps P base (retried net method path body r).1
    unfolding retried invalidate
    retried-Keeps (no_answer msg, st) k = k
    retried-Keeps (answer r, st) k = elim (Bool-cases (nat_beq r.status 403)) [
      | inl e ↦ rw e (do_once-Keeps (invalidate st) k)
      | inr e ↦ rw e k
    ]

    pub do_request-Keeps :
        (st : State W) → Keeps P base st → Keeps P base (do_request net st method path body).1
    unfolding do_request
    do_request-Keeps st k = retried-Keeps (do_once net st method path body) (do_once-Keeps st k)
