-- ===== src/Sandbox/Processes.antt =====
-- stdio.go: the process behind a server, over any sequence of calls.
use mcp_gateway_w.Prelude.{
  ℕ, ◌≡◌, ◌≢◌, ◌⊎◌, refl, ap, inl, inr, true, false, Option-cases, List, [], ◌∷◌, Option, none,
  some, Text, lit, arith,
}
use mcp_gateway_w.Sandbox.{
  Codec, Conn, Called, result, failed, Launched, Server, new_server, new_conn, init_params, stop,
  or_default, initialized, call, ensure, panicked, call_conn, call_tool, list_tools, close,
}

-- One process runs while the server is initialized, and none otherwise; the connection is with it.
abbrev pub IsTidy : Server → Type 0
IsTidy s =
    ((s.inited ≡ true)
      × ((p : ℕ) × (c : Conn) × (s.inst ≡ some p) × (s.conn ≡ some c) × (s.running ≡ p ∷ [])))
    ⊎ ((s.inited ≡ false) × (s.inst ≡ none) × (s.conn ≡ none) × (s.running ≡ []))

-- A step of the server. The launch is the one that happens if there is no process.
pub data Op : Type 0 where
  calls : Option Launched → (name args : Text) → Op
  lists : Option Launched → Op
  closes : Op

stop_self : (p : ℕ) → stop p (p ∷ []) ≡ []
unfolding stop
stop_self p = ground arith

close_inited : (s : Server) → IsTidy s → (close s).inited ≢ true
unfolding close
close_inited s (inl (i, (p, c, a, b, e))) = rw (a, close) (λ h. cc)
close_inited s (inr (i, a, b, e)) = rw (a, close, i) (λ h. cc)

module _ {T : Type 0} (json : Codec T) where
  initialized-IsTidy :
      (s : Server) (p : ℕ) (r : Called × Conn)
      → s.inited ≡ false
      → s.inst ≡ none
      → s.conn ≡ none
      → s.running ≡ []
      → IsTidy (initialized s p r).1
        × (((initialized s p r).0 ≡ none) → (initialized s p r).1.conn ≢ none)
  unfolding initialized
  initialized-IsTidy s p (failed msg, c) i a b e = (inr (i, a, b, rw e (stop_self p)), λ h. cc)
  initialized-IsTidy s p (result r, c) i a b e =
      (inl (refl, (p, _, refl, refl, ap (λ (l : List ℕ). p ∷ l) e)), λ h k. cc)

  ensure-IsTidy :
      (s : Server) (l : Option Launched)
      → IsTidy s
      → IsTidy (ensure json s l).1
        × (((ensure json s l).0 ≡ none) → (ensure json s l).1.conn ≢ none)
  unfolding ensure
  ensure-IsTidy s l (inl (i, (p, c, a, b, e))) = rw i (inl (refl, (p, c, a, b, e)), λ h k. cc)
  ensure-IsTidy s none (inr (i, a, b, e)) = rw i (inr (refl, a, b, e), λ h. cc)
  ensure-IsTidy s (some l) (inr (i, a, b, e)) = rw i (
      initialized-IsTidy (record s { inited = false }) l.process
        (call json (new_conn l) (lit "initialize") init_params) refl a b e)

  call_conn-IsTidy :
      (s : Server) (method params : Text) → IsTidy s → IsTidy (call_conn json s method params).1
  unfolding call_conn
  call_conn-IsTidy s method params (inl (i, (p, c, a, b, e))) =
      rw (b, call_conn) (inl (i, (p, _, a, refl, e)))
  call_conn-IsTidy s method params (inr (i, a, b, e)) = rw (b, call_conn) (inr (i, a, b, e))

  call_conn-answered :
      (s : Server) (method params : Text)
      → s.conn ≢ none
      → (call_conn json s method params).0 ≢ panicked
  unfolding call_conn
  call_conn-answered s method params h k = elim (Option-cases s.conn) [
    | inl x ↦ h x
    | inr (c, x) ↦ ground (arith, x, k)
  ]

  close-IsTidy : (s : Server) → IsTidy s → IsTidy (close s)
  unfolding close
  close-IsTidy s (inl (i, (p, c, a, b, e))) =
      rw (a, close) (inr (refl, refl, refl, rw e (stop_self p)))
  close-IsTidy s (inr (i, a, b, e)) = rw (a, close) (inr (i, a, b, e))

  -- After `ensure` a call on the connection follows, or the error is answered.
  call_tool-IsTidy :
      (s : Server) (l : Option Launched) (name args : Text)
      → IsTidy s
      → IsTidy (call_tool json s l name args).1 × ((call_tool json s l name args).0 ≢ panicked)
  unfolding call_tool
  call_tool-IsTidy s l name args t =
      let params = json.encode_call name (or_default args (lit "{}")) in
      let r = ensure json s l in
      let (a, b) = ensure-IsTidy s l t in
      elim (Option-cases r.0) [
        | inl x ↦
            rw (x, call_tool)
              (
                call_conn-IsTidy r.1 (lit "tools/call") params a,
                call_conn-answered r.1 (lit "tools/call") params (b x),
              )
        | inr (msg, x) ↦ rw (x, call_tool) (a, λ k. cc)
      ]

  list_tools-IsTidy : (s : Server) (l : Option Launched) → IsTidy s → IsTidy (list_tools json s l).1
  unfolding list_tools
  list_tools-IsTidy s l t =
      let r = ensure json s l in
      let (a, b) = ensure-IsTidy s l t in
      elim (Option-cases r.0) [
        | inl x ↦ rw (x, list_tools) (call_conn-IsTidy r.1 (lit "tools/list") [] a)
        | inr (msg, x) ↦ rw (x, list_tools) a
      ]

  pub step : Server → Op → Server
  step s (calls l name args) = (call_tool json s l name args).1
  step s (lists l) = (list_tools json s l).1
  step s closes = close s

  unfoldable pub run : Server → List Op → Server
  unfolding step
  run s [] = s
  run s (o ∷ os) = run (step s o) os

  run-IsTidy_of : (s : Server) (os : List Op) → IsTidy s → IsTidy (run s os)
  unfolding run step
  run-IsTidy_of s [] t = t
  run-IsTidy_of s (calls l name args ∷ os) t =
      run-IsTidy_of (call_tool json s l name args).1 os (call_tool-IsTidy s l name args t).0
  run-IsTidy_of s (lists l ∷ os) t =
      run-IsTidy_of (list_tools json s l).1 os (list_tools-IsTidy s l t)
  run-IsTidy_of s (closes ∷ os) t = run-IsTidy_of (close s) os (close-IsTidy s t)

  -- After any sequence of calls and closings, one after the other, a server that is initialized has
  -- one process, and one that is not has none, whatever the launches answer; and the next call does
  -- not meet a missing connection.
  pub run-IsTidy :
      (os : List Op) (l : Option Launched) (name args : Text)
      → let s = run new_server os in IsTidy s × ((call_tool json s l name args).0 ≢ panicked)
  run-IsTidy os l name args =
      let t = run-IsTidy_of new_server os (inr (refl, refl, refl, refl)) in
      (t, (call_tool-IsTidy (run new_server os) l name args t).1)

  -- A server that is closed between the check that it is initialized and the use of its connection
  -- panics: the two are not under one lock.
  call_conn-close :
      (s : Server) (l : Option Launched) (method params : Text)
      → IsTidy s
      → (ensure json s l).0 ≡ none
      → (call_conn json (close (ensure json s l).1) method params).0 ≡ panicked
  unfolding call_conn close
  call_conn-close s l method params t h =
      elim (close-IsTidy (ensure json s l).1 (ensure-IsTidy s l t).0) [
        | inl (i, r) ↦ absurd (close_inited _ (ensure-IsTidy s l t).0 i)
        | inr (i, a, b, e) ↦ rw (b, call_conn) refl
      ]
