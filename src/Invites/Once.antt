-- ===== src/Invites/Once.antt =====
-- invites: what becomes of an invitation under any sequence of requests, one after the other.
use mcp_gateway_w.Prelude.{
  ℕ, ◌≡◌, ◌≢◌, refl, sym, ◌∙◌, inl, List, [], ◌∷◌, some, Text, text_eq_iff, arith, subst,
}
use mcp_gateway_w.Prelude.Dict.{lookup, lookup-insert}
use mcp_gateway_w.Invites.{accepted, Invitation, get_by_token_hash}
use mcp_gateway_w.Invites.Handlers.{
  Handlers, State, Request, creates, lists, revokes, accept, handle,
}
use mcp_gateway_w.Invites.Tokens.{Updates, accept-Updates}
use mcp_gateway_w.Invites.Rows.{
  AllMade, Spent, get_by_token_hash-lookup, Moves-AllMade, Moves-Spent, Spent-get_by_token_hash,
}
use mcp_gateway_w.Invites.Requests.{
  Goes, update-found, accepted-pending, create-Moves, revoke-Moves, accept-Moves,
}

-- A request of an administrator to an organization, or a token that is sent.
pub data Step : Type 0 where
  manages : (org actor : Text) (req : Request) → Step
  accepts : (token : Text) → Step

module _ {W : Type 0} where
  unfoldable step : Handlers W → State W → Step → State W
  unfolding handle accept
  step h st (manages org actor req) = (handle h st org actor req).1
  step h st (accepts token) = (accept h st token).1

  unfoldable pub run : Handlers W → State W → List Step → State W
  unfolding step
  run h st [] = st
  run h st (s ∷ ss) = run h (step h st s) ss

  step-Moves :
      (h : Handlers W) (st : State W) (s : Step)
      → AllMade h st.readings st.invitations
      → Goes h st (step h st s)
  unfolding step handle
  step-Moves h st (manages org actor (creates req)) am = create-Moves h st org actor req
  step-Moves h st (manages org actor lists) am = inl (omega arith, refl)
  step-Moves h st (manages org actor (revokes id)) am = revoke-Moves h st org actor id am
  step-Moves h st (accepts token) am = accept-Moves h st token am

  run-AllMade :
      (h : Handlers W) (st : State W) (ss : List Step)
      → AllMade h st.readings st.invitations
      → AllMade h (run h st ss).readings (run h st ss).invitations
  unfolding run
  run-AllMade h st [] am = am
  run-AllMade h st (s ∷ ss) am =
      run-AllMade h (step h st s) ss (Moves-AllMade h _ _ _ _ am (step-Moves h st s am))

  run-Spent :
      (h : Handlers W) (st : State W) (ss : List Step) (k hs : Text)
      → ((a b : ℕ) → h.new_id a ≡ h.new_id b → a ≡ b)
      → AllMade h st.readings st.invitations
      → Spent st.invitations k hs
      → Spent (run h st ss).invitations k hs
  unfolding run
  run-Spent h st [] k hs ids am sp = sp
  run-Spent h st (s ∷ ss) k hs ids am sp =
      let mv = step-Moves h st s am in
      run-Spent h (step h st s) ss k hs ids (Moves-AllMade h _ _ _ _ am mv)
        (Moves-Spent h ids _ _ _ _ k hs am mv sp)

  accepted-Spent :
      (h : Handlers W) (st : State W) (org secret : Text) (inv : Invitation) (st' : State W)
      → AllMade h st.readings st.invitations
      → get_by_token_hash st.invitations org (h.hash secret) ≡ some inv
      → Updates st inv st'
      → Spent st'.invitations inv.id (h.hash secret)
  accepted-Spent h st org secret inv st' am q (n, u) =
      let (k, l, t) = get_by_token_hash-lookup st.invitations org _ inv am.0 q in
      let i = (am.1 k inv l).0 in
      let inv' : Invitation = record inv { status = accepted; accepted_at = some n } in
      let f = update-found st.invitations inv inv' refl (cc (i, l)) in
      subst (λ m. Spent m inv.id (h.hash secret)) (sym (u ∙ f))
        (
          inv',
          ground
              (arith, lookup-insert inv.id inv.id inv' st.invitations, text_eq_iff inv.id inv.id),
          t,
          accepted-pending,
        )

  -- A token that was accepted is not accepted again, whatever requests come before and in between, one
  -- after the other: from a store with no invitations on, where the ids and the hashes of secrets that
  -- are made at different readings of the clock differ.
  pub accept_once :
      (h : Handlers W) (st : State W) (before between : List Step) (token : Text)
      → ((a b : ℕ) → h.new_id a ≡ h.new_id b → a ≡ b)
      → ((a b : ℕ) → h.hash (h.secret a) ≡ h.hash (h.secret b) → a ≡ b)
      → st.invitations ≡ []
      → (accept h (run h st before) token).0.status ≡ 200
      → (accept h (run h (accept h (run h st before) token).1 between) token).0.status ≢ 200
  unfolding lookup
  accept_once h st before between token ids hashes empty e again =
      let none_made : AllMade h st.readings st.invitations =
        subst (AllMade h st.readings) (sym empty) (tt, λ k inv f. absurd (ground (arith, f))) in
      let st1 = run h st before in
      let am = run-AllMade h st before none_made in
      let am1 = Moves-AllMade h _ _ _ _ am (accept-Moves h st1 token am) in
      let (org, secret, inv, p, q, x, y, u) = accept-Updates h st1 token e in
      let sp = accepted-Spent h st1 org secret inv (accept h st1 token).1 am q u in
      let st2 = (accept h st1 token).1 in
      let am2 = run-AllMade h st2 between am1 in
      let sp2 = run-Spent h st2 between inv.id (h.hash secret) ids am1 sp in
      let (org', secret', inv', p', q', x', y', u') =
        accept-Updates h (run h st2 between) token again in
      let s : secret ≡ secret' = ground (arith, p, p') in
      let sp3 = subst (λ s. Spent (run h st2 between).invitations inv.id (h.hash s)) s sp2 in
      Spent-get_by_token_hash h _ _ inv.id org' (h.hash secret') inv' hashes am2 sp3 q' x'
