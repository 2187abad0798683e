-- ===== src/Invites/Tokens.antt =====
-- invites: an accept token and its use.
use mcp_gateway_w.Prelude.{
  ℕ, ◌≤◌, ◌≡◌, ◌≢◌, refl, sym, ap, ◌∙◌, inl, inr, Bool, true, false, [], ◌∷◌, ◌++◌, Option,
  Option-cases, none, some, Text, lit, ltb, Bool-cases, Lacks, arith, text_beq, if◌then◌else◌,
}
use mcp_gateway_w.Prelude.Dict.{Dict, lookup, Distinct}
use mcp_gateway_w.Idp.{Keycloak, Answer}
use mcp_gateway_w.Invites.{
  Status, pending, accepted, Invitation, get_by_token_hash, update_invitation, new_token, cut_dot,
  parse_token,
}
use mcp_gateway_w.Invites.Handlers.{
  Handlers, State, now, tick, record_event, assign_roles, is_pending, invited_user, granted, grant,
  create_invited, accept_found, accept,
}

cut_dot-append :
    (org secret : Text) → Lacks b'.' org → cut_dot (org ++ (b'.' ∷ secret)) ≡ some (org, secret)
unfolding cut_dot
cut_dot-append [] secret h = refl
cut_dot-append (a ∷ org) secret h = ground (arith, cut_dot-append org secret h.1)

-- The token made for an organization is taken apart into the organization and the secret, if neither
-- is empty and the organization's slug has no dot.
pub parse_token-new_token :
    (org secret : Text)
    → Lacks b'.' org
    → org ≢ []
    → secret ≢ []
    → parse_token (new_token org secret) ≡ some (org, secret)
unfolding parse_token new_token
parse_token-new_token [] secret h a b = absurd (a refl)
parse_token-new_token (x ∷ org) [] h a b = absurd (b refl)
parse_token-new_token (x ∷ org) (y ∷ secret) h a b = cc (cut_dot-append (x ∷ org) (y ∷ secret) h)

is_pending-eq : (s : Status) → is_pending s ≡ true → s ≡ pending
is_pending-eq s h = ground arith

module _ {W : Type 0} where
  pub record_event-invitations :
      (h : Handlers W) (st : State W) (a b c d : Text)
      → (record_event h st a b c d).invitations ≡ st.invitations
  unfolding record_event
  record_event-invitations h st a b c d = ground arith

  -- The update that the code makes of the rows.
  abbrev pub Updates : State W → Invitation → State W → Type 0
  Updates st inv st' =
      (n : ℕ) × (st'.invitations
        ≡ update_invitation st.invitations (record inv { status = accepted; accepted_at = some n }))

  granted-Updates :
      (h : Handlers W) (st : State W) (org : Text) (inv : Invitation) (r : Bool × W)
      → (granted h st org inv r).0.status ≡ 200
      → Updates st inv (granted h st org inv r).1
  unfolding granted
  granted-Updates h st org inv (false, w) e = absurd (ground (arith, e))
  granted-Updates h st org inv (true, w) e =
      (now h st, record_event-invitations h _ org inv.email (lit "invitation.accept") inv.email)

  grant-Updates :
      (h : Handlers W) (kc : Keycloak W) (st : State W) (org : Text) (inv : Invitation)
      (a : Answer Text)
      → (grant h kc st org inv a).0.status ≡ 200
      → Updates st inv (grant h kc st org inv a).1
  unfolding grant
  grant-Updates h kc st org inv (Answer.failed msg) e = absurd (ground (arith, e))
  grant-Updates h kc st org inv (Answer.ok uid) e =
      granted-Updates h st org inv (assign_roles kc st.outer org uid inv.roles) e

  create_invited-Updates :
      (h : Handlers W) (st : State W) (org : Text) (inv : Invitation) (k : Option (Keycloak W))
      → (create_invited h st org inv k).0.status ≡ 200
      → Updates st inv (create_invited h st org inv k).1
  unfolding create_invited
  create_invited-Updates h st org inv none e = absurd (ground (arith, e))
  create_invited-Updates h st org inv (some kc) e =
      let (a, w) = kc.create_user st.outer org (invited_user inv) in
      grant-Updates h kc (record st { outer = w }) org inv a e

  accept_found-Updates :
      (h : Handlers W) (st : State W) (org : Text) (inv : Invitation)
      → (accept_found h st org inv).0.status ≡ 200
      → (inv.status ≡ pending)
        × (now h st ≤ inv.expires_at)
        × Updates st inv (accept_found h st org inv).1
  unfolding accept_found
  accept_found-Updates h st org inv e = elim (Bool-cases (is_pending inv.status)) [
    | inr p ↦ absurd (ground (arith, e))
    | inl p ↦ elim (Bool-cases (ltb inv.expires_at (now h st))) [
      | inl q ↦ absurd (ground (arith, e))
      | inr q ↦
          let eq : accept_found h st org inv ≡ create_invited h (tick st) org inv h.kc =
            cc (p, q) in
          let (n, u) =
            create_invited-Updates h (tick st) org inv h.kc (ap (λ r. r.0.status) (sym eq) ∙ e) in
          (is_pending-eq inv.status p, ground arith, (n, ap (λ r. r.1.invitations) eq ∙ u))
    ]
  ]

  -- What an accepted token names, with the update.
  pub accept-Updates :
      (h : Handlers W) (st : State W) (token : Text)
      → (accept h st token).0.status ≡ 200
      → (org secret : Text) × (inv : Invitation) × (parse_token token ≡ some (org, secret))
        × (get_by_token_hash st.invitations org (h.hash secret) ≡ some inv)
        × (inv.status ≡ pending)
        × (now h st ≤ inv.expires_at)
        × Updates st inv (accept h st token).1
  unfolding accept
  accept-Updates h st [] e = absurd (ground (arith, e))
  accept-Updates h st (b ∷ s) e = elim (Option-cases (parse_token (b ∷ s))) [
    | inl p ↦ absurd (ground (arith, e))
    | inr ((org, secret), p) ↦
        elim (Option-cases (get_by_token_hash st.invitations org (h.hash secret))) [
          | inl q ↦ absurd (ground (arith, e))
          | inr (inv, q) ↦
              let eq : accept h st (b ∷ s) ≡ accept_found h st org inv = cc (p, q) in
              let (x, y, (n, u)) =
                accept_found-Updates h st org inv (ap (λ r. r.0.status) (sym eq) ∙ e) in
              (org, secret, inv, p, q, x, y, (n, ap (λ r. r.1.invitations) eq ∙ u))
        ]
  ]

-- Each row stands under its own id, and no id stands twice.
abbrev pub IsKept : Dict Invitation → Type 0
IsKept m = Distinct m × ((k : Text) (inv : Invitation) → lookup k m ≡ some inv → inv.id ≡ k)

module _ {W : Type 0} where
  -- Under the id of the invitation there is the invitation, accepted, and under every other what was
  -- there before.
  abbrev pub IsUsed : State W → Invitation → State W → Type 0
  IsUsed st inv st' =
      (n : ℕ) × ((k : Text)
        → lookup k st'.invitations ≡ (
            if text_beq inv.id k
            then some (record inv { status = accepted; accepted_at = some n })
            else lookup k st.invitations))
