-- ===== src/Invites/Rows.antt =====
-- invites: the rows of the store, each made at one reading of the clock, and a move of them.
use mcp_gateway_w.Prelude.{
  ℕ, ◌<◌, ◌≤◌, ◌≡◌, ◌≢◌, refl, sym, ap, ◌∙◌, ◌⊎◌, inl, inr, ◌&&◌, [], ◌∷◌, some, Text, text_beq,
  text_eq_iff, Bool-cases, arith, subst,
}
use mcp_gateway_w.Prelude.Dict.{Dict, lookup, insert, lookup-insert, Distinct, insert-Distinct}
use mcp_gateway_w.Invites.{pending, Invitation, get_by_token_hash}
use mcp_gateway_w.Invites.Handlers.{Handlers}

-- Each row stands under its id, and its id and its hash were made at one reading of the clock.
abbrev pub Made : {W : Type 0} → Handlers W → ℕ → Text → Invitation → Type 0
Made h limit k inv =
    (inv.id ≡ k) × (n : ℕ) × (n < limit) × (k ≡ h.new_id n) × (inv.token_hash ≡ h.hash (h.secret n))

abbrev pub AllMade : {W : Type 0} → Handlers W → ℕ → Dict Invitation → Type 0
AllMade h limit m =
    Distinct m × ((k : Text) (inv : Invitation) → lookup k m ≡ some inv → Made h limit k inv)

-- What a step does to the rows: nothing, a new one, or a change of one that is then not pending.
abbrev pub Moves : {W : Type 0} → Handlers W → Dict Invitation → ℕ → Dict Invitation → ℕ → Type 0
Moves h m n m' n' =
    ((n ≤ n') × (m' ≡ m))
    ⊎ (((inv : Invitation) × (c : ℕ) × (n ≤ c)
          × (c < n')
          × (inv.id ≡ h.new_id c)
          × (inv.token_hash ≡ h.hash (h.secret c))
          × (m' ≡ insert inv.id inv m))
        ⊎ ((inv inv' : Invitation) × (lookup inv.id m ≡ some inv)
            × (inv'.id ≡ inv.id)
            × (inv'.token_hash ≡ inv.token_hash)
            × (inv'.status ≢ pending)
            × (n ≤ n')
            × (m' ≡ insert inv'.id inv' m)))

-- The row of a key has the hash and is not pending.
abbrev pub Spent : Dict Invitation → Text → Text → Type 0
Spent m k hs =
    (inv : Invitation) × (lookup k m ≡ some inv) × (inv.token_hash ≡ hs) × (inv.status ≢ pending)

pub get_by_token_hash-lookup :
    (m : Dict Invitation) (org hs : Text) (inv : Invitation)
    → Distinct m
    → get_by_token_hash m org hs ≡ some inv
    → (k : Text) × (lookup k m ≡ some inv) × (inv.token_hash ≡ hs)
unfolding get_by_token_hash lookup
get_by_token_hash-lookup [] org hs inv d e = absurd (ground (arith, e))
get_by_token_hash-lookup ((j, i) ∷ m) org hs inv (f, d) e =
    elim (Bool-cases (text_beq i.org_id org && text_beq i.token_hash hs)) [
      | inl b ↦ (
        j,
        ground (arith, b, e, text_eq_iff j j),
        ground (arith, b, e, text_eq_iff i.token_hash hs),
      )
      | inr b ↦
          let e' : get_by_token_hash m org hs ≡ some inv = rw b at e in
          let (k, l, t) = get_by_token_hash-lookup m org hs inv d e' in
          (k, ground (arith, l, f, text_eq_iff j k), t)
    ]

module _ {W : Type 0} (h : Handlers W) where
  insert-AllMade :
      (m : Dict Invitation) (n n' : ℕ) (inv : Invitation)
      → AllMade h n m
      → n ≤ n'
      → Made h n' inv.id inv
      → AllMade h n' (insert inv.id inv m)
  insert-AllMade m n n' inv (d, a) l x = (
    insert-Distinct inv.id inv m d,
    λ k i e. elim (Bool-cases (text_beq inv.id k)) [
      | inl b ↦
          let q : inv.id ≡ k = ground (arith, b, text_eq_iff inv.id k) in
          let p : inv ≡ i = ground (arith, b, e, lookup-insert inv.id k inv m) in
          subst (λ k. Made h n' k i) q (subst (λ i. Made h n' inv.id i) p x)
      | inr b ↦
          let (y, c, z, u, v) = a k i (ground (arith, b, e, lookup-insert inv.id k inv m)) in
          (y, c, omega (arith, z, l), u, v)
    ],
  )

  pub Moves-AllMade :
      (m m' : Dict Invitation) (n n' : ℕ) → AllMade h n m → Moves h m n m' n' → AllMade h n' m'
  Moves-AllMade m m' n n' (d, a) (inl (l, e)) =
      subst (AllMade h n') (sym e)
        (d, λ k i q. let (y, c, z, u, v) = a k i q in (y, c, omega (arith, z, l), u, v))
  Moves-AllMade m m' n n' am (inr (inl (inv, b, a, l, i, t, e))) =
      subst (AllMade h n') (sym e)
        (insert-AllMade m n n' inv am (omega (arith, a, l)) (refl, b, l, i, t))
  Moves-AllMade m m' n n' am (inr (inr (inv, inv', f, i, t, p, l, e))) =
      let (y, c, z, u, v) = am.1 inv.id inv f in
      subst (AllMade h n') (sym e)
        (insert-AllMade m n n' inv' am l (refl, c, omega (arith, z, l), i ∙ u, t ∙ v))

  module _ (ids : (a b : ℕ) → h.new_id a ≡ h.new_id b → a ≡ b) where
    pub Moves-Spent :
        (m m' : Dict Invitation) (n n' : ℕ) (k hs : Text)
        → AllMade h n m
        → Moves h m n m' n'
        → Spent m k hs
        → Spent m' k hs
    Moves-Spent m m' n n' k hs am (inl (l, e)) sp = subst (λ m. Spent m k hs) (sym e) sp
    Moves-Spent m m' n n' k hs am (inr (inl (inv, b, a, l, i, t, e))) (inv0, f0, t0, p0) =
        let (y, c, z, u, v) = am.1 k inv0 f0 in
        let kept : lookup k (insert inv.id inv m) ≡ some inv0 =
          elim (Bool-cases (text_beq inv.id k)) [
            | inl x ↦
                let q : inv.id ≡ k = ground (arith, x, text_eq_iff inv.id k) in
                let r = ids b c (sym i ∙ q ∙ u) in absurd (omega (arith, r, z, a))
            | inr x ↦ ground (arith, x, f0, lookup-insert inv.id k inv m)
          ] in
        subst (λ m. Spent m k hs) (sym e) (inv0, kept, t0, p0)
    Moves-Spent m m' n n' k hs am (inr (inr (inv, inv', f, i, t, p, l, e))) (inv0, f0, t0, p0) =
        subst (λ m. Spent m k hs) (sym e)
          (elim (Bool-cases (text_beq inv'.id k)) [
            | inl b ↦
                let q : inv'.id ≡ k = ground (arith, b, text_eq_iff inv'.id k) in
                let g : inv ≡ inv0 = ground (arith, f, f0, q, i) in
                (inv', ground (arith, b, lookup-insert inv'.id k inv' m), cc, p)
            | inr b ↦ (inv0, ground (arith, b, f0, lookup-insert inv'.id k inv' m), t0, p0)
          ])

  pub Spent-get_by_token_hash :
      (m : Dict Invitation) (n : ℕ) (k org hs : Text) (inv : Invitation)
      → ((a b : ℕ) → h.hash (h.secret a) ≡ h.hash (h.secret b) → a ≡ b)
      → AllMade h n m
      → Spent m k hs
      → get_by_token_hash m org hs ≡ some inv
      → inv.status ≢ pending
  Spent-get_by_token_hash m n k org hs inv hashes am (inv0, f0, t0, p0) e =
      let (k', f, t) = get_by_token_hash-lookup m org hs inv am.0 e in
      let (y, c, z, u, v) = am.1 k inv0 f0 in
      let (y', c', z', u', v') = am.1 k' inv f in
      let q : c ≡ c' = hashes c c' (sym v ∙ t0 ∙ sym t ∙ v') in
      let r : k ≡ k' = u ∙ ap h.new_id q ∙ sym u' in
      let g : inv0 ≡ inv = ground (arith, f, f0, r) in subst (λ i. i.status ≢ pending) g p0
