-- ===== src/Invites/Requests.antt =====
-- invites: each handler makes a move of the rows.
use mcp_gateway_w.Prelude.{
  ℕ, suc, ◌≤◌, ◌≡◌, ◌≢◌, refl, sym, ◌∙◌, inl, inr, Bool, true, false, [], ◌∷◌, Option, Option-cases,
  none, some, Text, ltb, Bool-cases, arith, subst, lit,
}
use mcp_gateway_w.Prelude.Dict.{Dict, lookup, insert}
use mcp_gateway_w.Idp.{Keycloak, Answer}
use mcp_gateway_w.Invites.{
  pending, accepted, revoked, Invitation, get_invitation, get_by_token_hash, update_invitation,
  parse_token,
}
use mcp_gateway_w.Invites.Handlers.{
  Handlers, State, CreateReq, now, tick, record_event, create, revoke, assign_roles, is_pending,
  invited_user, granted, grant, create_invited, accept_found, accept, contains_at,
}
use mcp_gateway_w.Invites.Tokens.{record_event-invitations}
use mcp_gateway_w.Invites.Rows.{AllMade, Moves, get_by_token_hash-lookup}

pub update-found :
    (m : Dict Invitation) (inv inv' : Invitation)
    → inv'.id ≡ inv.id
    → lookup inv.id m ≡ some inv
    → update_invitation m inv' ≡ insert inv'.id inv' m
unfolding update_invitation
update-found m inv inv' i f = cc (i, f)

get_invitation-lookup :
    (m : Dict Invitation) (org id : Text) (inv : Invitation)
    → get_invitation m org id ≡ some inv
    → lookup id m ≡ some inv
unfolding get_invitation
get_invitation-lookup m org id inv e = elim (Option-cases (lookup id m)) [
  | inl f ↦ absurd (ground (arith, e))
  | inr (i, f) ↦ ground (arith, e, f)
]

pub accepted-pending : accepted ≢ pending
accepted-pending e = ground (arith, e)

revoked-pending : revoked ≢ pending
revoked-pending e = ground (arith, e)

module _ {W : Type 0} where
  record_event-readings :
      (h : Handlers W) (st : State W) (a b c d : Text) (n : ℕ)
      → n ≤ st.readings
      → n ≤ (record_event h st a b c d).readings
  unfolding record_event
  record_event-readings h st a b c d n l = ground (arith, l)

  abbrev pub Goes : Handlers W → State W → State W → Type 0
  Goes h st st' = Moves h st.invitations st.readings st'.invitations st'.readings

  pub create-Moves :
      (h : Handlers W) (st : State W) (org actor : Text) (req : Option CreateReq)
      → Goes h st (create h st org actor req).1
  unfolding create
  create-Moves h st org actor none = inl (omega arith, refl)
  create-Moves h st org actor (some req) = elim (Bool-cases (contains_at req.email)) [
    | inr b ↦ rw b (inl (omega arith, refl))
    | inl b ↦ rw b (
        inr (
          inl (
            _,
            st.readings,
            omega arith,
            record_event-readings h _ org actor (lit "invitation.create") req.email
                (suc st.readings) (omega arith),
            refl,
            refl,
            record_event-invitations h _ org actor (lit "invitation.create") req.email,
          )))
  ]

  pub revoke-Moves :
      (h : Handlers W) (st : State W) (org actor id : Text)
      → AllMade h st.readings st.invitations
      → Goes h st (revoke h st org actor id).1
  unfolding revoke
  revoke-Moves h st org actor id am = elim (Option-cases (get_invitation st.invitations org id)) [
    | inl f ↦
        let eq : (revoke h st org actor id).1 ≡ st = cc f in
        subst (Goes h st) (sym eq) (inl (omega arith, refl))
    | inr (inv, f) ↦
        let l = get_invitation-lookup st.invitations org id inv f in
        let i = (am.1 id inv l).0 in
        let l' : lookup inv.id st.invitations ≡ some inv = cc (i, l) in
        let inv' : Invitation = record inv { status = revoked } in
        let st1 : State W = record st { invitations = update_invitation st.invitations inv' } in
        let eq : (revoke h st org actor id).1
            ≡ record_event h st1 org actor (lit "invitation.revoke") inv.email =
          cc f in
        subst (Goes h st) (sym eq) (
          inr (
            inr (
              inv,
              inv',
              l',
              refl,
              refl,
              revoked-pending,
              record_event-readings h st1 org actor (lit "invitation.revoke") inv.email st.readings
                  (omega arith),
              record_event-invitations h st1 org actor (lit "invitation.revoke") inv.email
                  ∙ update-found st.invitations inv inv' refl l',
            )))
  ]

  granted-Moves :
      (h : Handlers W) (st : State W) (org : Text) (inv : Invitation) (r : Bool × W)
      → lookup inv.id st.invitations ≡ some inv
      → Goes h st (granted h st org inv r).1
  unfolding granted
  granted-Moves h st org inv (false, w) l = inl (omega arith, refl)
  granted-Moves h st org inv (true, w) l =
      let inv' : Invitation = record inv { status = accepted; accepted_at = some (now h st) } in
      inr (
        inr (
          inv,
          inv',
          l,
          refl,
          refl,
          accepted-pending,
          record_event-readings h _ org inv.email (lit "invitation.accept") inv.email st.readings
              (omega arith),
          record_event-invitations h _ org inv.email (lit "invitation.accept") inv.email
              ∙ update-found st.invitations inv inv' refl l,
        ))

  grant-Moves :
      (h : Handlers W) (kc : Keycloak W) (st : State W) (org : Text) (inv : Invitation)
      (a : Answer Text)
      → lookup inv.id st.invitations ≡ some inv
      → Goes h st (grant h kc st org inv a).1
  unfolding grant
  grant-Moves h kc st org inv (Answer.failed msg) l = inl (omega arith, refl)
  grant-Moves h kc st org inv (Answer.ok uid) l =
      granted-Moves h st org inv (assign_roles kc st.outer org uid inv.roles) l

  create_invited-Moves :
      (h : Handlers W) (st : State W) (org : Text) (inv : Invitation) (k : Option (Keycloak W))
      → lookup inv.id st.invitations ≡ some inv
      → Goes h st (create_invited h st org inv k).1
  unfolding create_invited
  create_invited-Moves h st org inv none l = inl (omega arith, refl)
  create_invited-Moves h st org inv (some kc) l =
      let (a, w) = kc.create_user st.outer org (invited_user inv) in
      grant-Moves h kc (record st { outer = w }) org inv a l

  tick-Moves : (h : Handlers W) (st st' : State W) → Goes h (tick st) st' → Goes h st st'
  tick-Moves h st st' (inl (l, e)) = inl (omega (arith, l), e)
  tick-Moves h st st' (inr (inl (inv, b, a, l, i, t, e))) =
      inr (inl (inv, b, omega (arith, a), l, i, t, e))
  tick-Moves h st st' (inr (inr (inv, inv', f, i, t, p, l, e))) =
      inr (inr (inv, inv', f, i, t, p, omega (arith, l), e))

  accept_found-Moves :
      (h : Handlers W) (st : State W) (org : Text) (inv : Invitation)
      → lookup inv.id st.invitations ≡ some inv
      → Goes h st (accept_found h st org inv).1
  unfolding accept_found
  accept_found-Moves h st org inv l = elim (Bool-cases (is_pending inv.status)) [
    | inr p ↦
        let eq : (accept_found h st org inv).1 ≡ st = cc p in
        subst (Goes h st) (sym eq) (inl (omega arith, refl))
    | inl p ↦ elim (Bool-cases (ltb inv.expires_at (now h st))) [
      | inl q ↦
          let eq : (accept_found h st org inv).1 ≡ tick st = cc (p, q) in
          subst (Goes h st) (sym eq) (inl (omega arith, refl))
      | inr q ↦
          let eq : accept_found h st org inv ≡ create_invited h (tick st) org inv h.kc =
            cc (p, q) in
          subst (λ r. Goes h st r.1) (sym eq)
            (tick-Moves h st (create_invited h (tick st) org inv h.kc).1
              (create_invited-Moves h (tick st) org inv h.kc l))
    ]
  ]

  pub accept-Moves :
      (h : Handlers W) (st : State W) (token : Text)
      → AllMade h st.readings st.invitations
      → Goes h st (accept h st token).1
  unfolding accept
  accept-Moves h st [] am = inl (omega arith, refl)
  accept-Moves h st (b ∷ s) am = elim (Option-cases (parse_token (b ∷ s))) [
    | inl p ↦
        let eq : (accept h st (b ∷ s)).1 ≡ st = cc p in
        subst (Goes h st) (sym eq) (inl (omega arith, refl))
    | inr ((org, secret), p) ↦
        elim (Option-cases (get_by_token_hash st.invitations org (h.hash secret))) [
          | inl q ↦
              let eq : (accept h st (b ∷ s)).1 ≡ st = cc (p, q) in
              subst (Goes h st) (sym eq) (inl (omega arith, refl))
          | inr (inv, q) ↦
              let eq : accept h st (b ∷ s) ≡ accept_found h st org inv = cc (p, q) in
              let (k, l, t) = get_by_token_hash-lookup st.invitations org _ inv am.0 q in
              let i = (am.1 k inv l).0 in
              let l' : lookup inv.id st.invitations ≡ some inv = cc (i, l) in
              subst (λ r. Goes h st r.1) (sym eq) (accept_found-Moves h st org inv l')
        ]
  ]
