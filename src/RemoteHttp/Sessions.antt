-- ===== src/RemoteHttp/Sessions.antt =====
-- client.go: how often a call is sent.
use mcp_gateway_w.Prelude.{
  ℕ, suc, ◌+◌, ◌≤◌, ◌≢◌, Bool, true, false, List, [], ◌∷◌, Option, none, some, Text, lit, text_beq,
  text_eq_iff, length, is_empty, arith, if◌then◌else◌,
}
use mcp_gateway_w.RemoteHttp.{
  HttpRequest, World, State, Outcome, result, session_expired, failed, post, do_rpc, notify,
  initialized, init_unless, ensure_init, reset, retried, called, opened, rpc, init_params,
}

-- How many of the requests are of the method.
pub calls : Text → List HttpRequest → ℕ
calls m [] = 0
calls m (r ∷ rs) = if text_beq r.method m then suc (calls m rs) else calls m rs

-- At most `n` more requests, of which at most `k` are of the method.
abbrev pub IsWithin : {W : Type 0} → Text → ℕ → ℕ → State W → State W → Type 0
IsWithin m n k st st1 =
    (length st1.sent ≤ length st.sent + n) × (calls m st1.sent ≤ calls m st.sent + k)

module _ {W : Type 0} (net : World W) (m : Text) (no_init : m ≢ lit "initialize")
    (no_note : m ≢ lit "notifications/initialized") where
  post-other :
      (st : State W) (method params : Text)
      → m ≢ method
      → IsWithin m 1 0 st (post net st method params).1
  unfolding post calls
  post-other st method params n = (omega arith, ground (arith, text_eq_iff method m, n))

  post-own : (st : State W) (params : Text) → IsWithin m 1 1 st (post net st m params).1
  unfolding post calls
  post-own st params = (omega arith, ground (arith, text_eq_iff m m))

  initialized-IsWithin :
      (st : State W) (r : Outcome × Text) → IsWithin m 1 0 st (initialized net r st).1
  unfolding initialized notify
  initialized-IsWithin st (result r, sid) =
      post-other
        (record st {
          client = record st.client {
            session_id = if is_empty sid then st.client.session_id else sid;
            inited = true;
          };
        })
        (lit "notifications/initialized") [] no_note
  initialized-IsWithin st (session_expired, sid) = (omega arith, omega arith)
  initialized-IsWithin st (failed msg, sid) = (omega arith, omega arith)

  init_unless-IsWithin : (b : Bool) (st : State W) → IsWithin m 2 0 st (init_unless net b st).1
  unfolding init_unless do_rpc
  init_unless-IsWithin true st = (omega arith, omega arith)
  init_unless-IsWithin false st =
      let one = post-other st (lit "initialize") init_params no_init in
      let r = do_rpc net st (lit "initialize") init_params in
      let two = initialized-IsWithin r.1 r.0 in (omega (arith, one, two), omega (arith, one, two))

  ensure_init-IsWithin : (st : State W) → IsWithin m 2 0 st (ensure_init net st).1
  unfolding ensure_init
  ensure_init-IsWithin st = init_unless-IsWithin st.client.inited st

  retried-IsWithin :
      (params : Text) (r : Option Outcome) (st : State W)
      → IsWithin m 1 1 st (retried net m params (r, st)).1
  unfolding retried do_rpc
  retried-IsWithin params (some e) st = (omega arith, omega arith)
  retried-IsWithin params none st = post-own st params

  called-IsWithin :
      (params : Text) (r : Outcome × Text) (st : State W)
      → IsWithin m 3 1 st (called net m params (r, st)).1
  unfolding called reset
  called-IsWithin params (result r, sid) st = (omega arith, omega arith)
  called-IsWithin params (failed msg, sid) st = (omega arith, omega arith)
  called-IsWithin params (session_expired, sid) st =
      let one = ensure_init-IsWithin (reset st) in
      let e = ensure_init net (reset st) in
      let two = retried-IsWithin params e.0 e.1 in
      (omega (arith, one, two), omega (arith, one, two))

  opened-IsWithin :
      (params : Text) (r : Option Outcome) (st : State W)
      → IsWithin m 4 2 st (opened net m params (r, st)).1
  unfolding opened do_rpc
  opened-IsWithin params (some e) st = (omega arith, omega arith)
  opened-IsWithin params none st =
      let one = post-own st params in
      let r = do_rpc net st m params in
      let two = called-IsWithin params r.0 r.1 in (omega (arith, one, two), omega (arith, one, two))

  -- A call, of a method other than the two of the handshake, ends after at most six requests, of which
  -- at most two are the call itself.
  rpc-IsWithin : (st : State W) (params : Text) → IsWithin m 6 2 st (rpc net st m params).1
  unfolding rpc
  rpc-IsWithin st params =
      let one = ensure_init-IsWithin st in
      let e = ensure_init net st in
      let two = opened-IsWithin params e.0 e.1 in (omega (arith, one, two), omega (arith, one, two))
