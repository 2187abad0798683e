-- ===== src/Prelude/Dict.antt =====
-- A Go map with string keys, as an association list. A key that is written first stands where it
-- was inserted; the order is not observed by the code except where a module says so.
use mcp_gateway_w.Prelude.Tests.{if◌then◌else◌, Bool-cases}
use mcp_gateway_w.Prelude.Bytes.{Text, text_beq, text_eq_iff}
use mathlib.Core.Path.{◌≡◌, refl}
use mathlib.Core.Logic.{inl, inr}
use mathlib.Core.Option.{Option, none, some}
use mathlib.Core.List.{List, [], ◌∷◌}
use native.Mathlib.Omega.{arith}

abbrev pub Dict {ℓ} : Type ℓ → Type ℓ
Dict V = List (Text × V)

module _ {ℓ} {V : Type ℓ} where
  unfoldable pub lookup : Text → Dict V → Option V
  lookup k [] = none
  lookup k ((j, v) ∷ m) = if text_beq j k then some v else lookup k m

  unfoldable pub insert : Text → V → Dict V → Dict V
  insert k v [] = (k, v) ∷ []
  insert k v ((j, w) ∷ m) = if text_beq j k then (k, v) ∷ m else (j, w) ∷ insert k v m

  unfoldable pub erase : Text → Dict V → Dict V
  erase k [] = []
  erase k ((j, w) ∷ m) = if text_beq j k then erase k m else (j, w) ∷ erase k m

  pub lookup-insert :
      (k j : Text) (v : V) (m : Dict V)
      → lookup j (insert k v m) ≡ (if text_beq k j then some v else lookup j m)
  unfolding lookup insert
  lookup-insert k j v [] = refl
  lookup-insert k j v ((i, w) ∷ m) =
      ground (arith, text_eq_iff k j, text_eq_iff i k, text_eq_iff i j, lookup-insert k j v m)

  pub lookup-erase :
      (k j : Text) (m : Dict V) → lookup j (erase k m) ≡ (if text_beq k j then none else lookup j m)
  unfolding lookup erase
  lookup-erase k j [] = ground arith
  lookup-erase k j ((i, w) ∷ m) =
      ground (arith, text_eq_iff k j, text_eq_iff i k, text_eq_iff i j, lookup-erase k j m)

  -- No key stands twice.
  abbrev pub Distinct : Dict V → Type ℓ
  Distinct [] = Unit
  Distinct ((k, v) ∷ m) = (lookup k m ≡ none) × Distinct m

  pub insert-Distinct : (k : Text) (v : V) (m : Dict V) → Distinct m → Distinct (insert k v m)
  unfolding insert lookup
  insert-Distinct k v [] d = (refl, tt)
  insert-Distinct k v ((j, w) ∷ m) (e, d) = elim (Bool-cases (text_beq j k)) [
    | inl b ↦ rw b (ground (arith, b, e, text_eq_iff j k), d)
    | inr b ↦ rw b (
      ground (arith, b, e, text_eq_iff j k, text_eq_iff k j, lookup-insert k j v m),
      insert-Distinct k v m d,
    )
  ]

  pub erase-Distinct : (k : Text) (m : Dict V) → Distinct m → Distinct (erase k m)
  unfolding erase
  erase-Distinct k [] d = d
  erase-Distinct k ((j, w) ∷ m) (e, d) = elim (Bool-cases (text_beq j k)) [
    | inl b ↦ rw b (erase-Distinct k m d)
    | inr b ↦ rw b (ground (arith, e, lookup-erase k j m), erase-Distinct k m d)
  ]
