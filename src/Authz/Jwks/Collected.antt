-- ===== src/Authz/Jwks/Collected.antt =====
-- jwks.go: which keys the loop over a document collects.
use mcp_gateway_w.Prelude.{
  ◌≡◌, refl, ◌∙◌, ◌⊎◌, inl, inr, Bool-cases, Option-cases, List, [], ◌∷◌, some, Text, lit, text_beq,
  text_eq_iff, arith,
}
use mcp_gateway_w.Prelude.Dict.{Dict, lookup, insert, lookup-insert}
use mcp_gateway_w.Authz.Jwks.{PublicKey, Jwk, collect_keys, rsa_public_key}

abbrev pub Has : {A : Type 0} → A → List A → Type 0
Has a [] = ⊥
Has a (x ∷ xs) = (a ≡ x) ⊎ Has a xs

-- An RSA key of that id and of these numbers is published.
abbrev pub Publishes : List Jwk → Text → PublicKey → Type 0
Publishes ks kid p =
    (j : Jwk) × Has j ks × (j.kid ≡ kid) × (j.kty ≡ lit "RSA") × (rsa_public_key j.n j.e ≡ some p)

Publishes-later :
    (j : Jwk) (ks : List Jwk) (kid : Text) (p : PublicKey)
    → Publishes ks kid p
    → Publishes (j ∷ ks) kid p
Publishes-later j ks kid p (i, h, a, b, c) = (i, inr h, a, b, c)

-- A key that is collected was there before, or is published under its id.
pub collect_keys-Publishes :
    (m : Dict PublicKey) (ks : List Jwk) (kid : Text) (p : PublicKey)
    → lookup kid (collect_keys m ks) ≡ some p
    → (lookup kid m ≡ some p) ⊎ Publishes ks kid p
unfolding collect_keys
collect_keys-Publishes m [] kid p e = inl e
collect_keys-Publishes m (j ∷ ks) kid p e = elim (Bool-cases (text_beq j.kty (lit "RSA"))) [
  | inr other ↦ elim (collect_keys-Publishes m ks kid p (rw (other, collect_keys) at e)) [
    | inl x ↦ inl x
    | inr x ↦ inr (Publishes-later j ks kid p x)
  ]
  | inl rsa ↦ elim (Option-cases (rsa_public_key j.n j.e)) [
    | inl bad ↦ elim (collect_keys-Publishes m ks kid p (rw (rsa, bad, collect_keys) at e)) [
      | inl x ↦ inl x
      | inr x ↦ inr (Publishes-later j ks kid p x)
    ]
    | inr (q, good) ↦
        elim (collect_keys-Publishes (insert j.kid q m) ks kid p
          (rw (rsa, good, collect_keys) at e)) [
            | inr x ↦ inr (Publishes-later j ks kid p x)
            | inl x ↦ elim (Bool-cases (text_beq j.kid kid)) [
              | inl same ↦ inr (
                j,
                inl refl,
                (text_eq_iff j.kid kid).0 same,
                (text_eq_iff j.kty (lit "RSA")).0 rsa,
                good ∙ ground (arith, same, x, lookup-insert j.kid kid q m),
              )
              | inr differs ↦ inl (ground (arith, differs, x, lookup-insert j.kid kid q m))
            ]
          ]
  ]
]
