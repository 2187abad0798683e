-- ===== src/Audit/Chain.antt =====
-- audit.go: what the hash chain promises of the whole log.
use mcp_gateway_w.Prelude.{
  ℕ, zero, suc, ◌/◌, ◌<◌, ◌≡◌, ◌≢◌, refl, List, [], ◌∷◌, ◌++◌, Text, text_eq_iff, arith,
}
use mcp_gateway_w.Audit.{
  Event, Record, Digest, digits, preimage, hash_record, last_hash, seal, append_record, verify_from,
  verify,
}
use mcp_gateway_w.Audit.Contents.{SameContents}

-- More fuel than the number's size changes nothing.
digits-fuel : (fuel n : ℕ) → n < fuel → digits (suc fuel) n ≡ digits fuel n
unfolding digits
digits-fuel zero n h = ground arith
digits-fuel (suc fuel) n h = ground (arith, digits-fuel fuel (n / 10))

verify_from-append :
    (d : Digest) (prev : Text) (rs : List Record) (r : Record)
    → r.prev_hash ≡ last_hash prev rs
    → r.hash ≡ hash_record d r
    → verify_from d prev (rs ++ r ∷ []) ≡ verify_from d prev rs
unfolding verify_from last_hash
verify_from-append d prev [] r p h =
    ground (arith, text_eq_iff r.prev_hash prev, text_eq_iff r.hash (hash_record d r))
verify_from-append d prev (q ∷ rs) r p h = ground (arith, verify_from-append d q.hash rs r p h)

-- A log with one more event recorded verifies exactly if it did before.
pub verify-append_record :
    (d : Digest) (now : ℕ) (rs : List Record) (e : Event)
    → verify d (append_record d now rs e) ≡ verify d rs
unfolding verify append_record seal hash_record preimage
verify-append_record d now rs e = verify_from-append d [] rs (seal d now rs e) refl refl

-- Two texts with one hash.
abbrev pub Collision : Digest → Type 0
Collision d = (s : Text) × (t : Text) × (s ≢ t) × (d.sum s ≡ d.sum t)

-- Record by record.
abbrev pub SameLog : List Record → List Record → Type 0
SameLog [] [] = Unit
SameLog [] (q ∷ qs) = ⊥
SameLog (r ∷ rs) [] = ⊥
SameLog (r ∷ rs) (q ∷ qs) = SameContents r q × SameLog rs qs
