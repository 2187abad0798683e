-- ===== src/Audit/Objects.antt =====
-- s3.go: what `loadTip` and `all` make of the objects, whatever the order of the listing.
use mcp_gateway_w.Prelude.{
  ℕ, ◌^◌, ◌<◌, ◌≡◌, ◌≢◌, refl, sym, ap, ◌∙◌, inl, inr, true, false, Bool-cases, Option-cases, List,
  [], ◌∷◌, ◌++◌, Option, none, some, Text, text_beq, text_eq_iff, below, All, arith, pos,
  if◌then◌else◌,
}
use mcp_gateway_w.Audit.{Record}
use mcp_gateway_w.Audit.Archive.{
  Bucket, key_for_seq, seq_from_key, tip_from, get_record, read_objects,
}
use mcp_gateway_w.Audit.Keys.{seq_from_key-key_for_seq}

abbrev pub IsKey : ℕ → Option Text → Type 0
IsKey n o = (s : ℕ) × (o ≡ some (key_for_seq s)) × (s < n)

pub some-injective : {a c : Text} → some a ≡ some c → a ≡ c
some-injective e = cc

pub key_nonempty : (n : ℕ) → key_for_seq n ≢ []
unfolding key_for_seq
key_nonempty n e = cc

tip_from-below :
    (n : ℕ) (key : Text) (ls : List (Option Text))
    → n < 2 ^ 63
    → All (IsKey n) ls
    → tip_from n key ls ≡ some (n, key)
unfolding tip_from
tip_from-below n key [] h k = refl
tip_from-below n key (none ∷ ls) h ((s, e, l), k) = cc
tip_from-below n key (some j ∷ ls) h ((s, e, l), k) =
    let q : seq_from_key j ≡ pos s =
      ap seq_from_key (some-injective e) ∙ seq_from_key-key_for_seq s (omega arith) in
    let c : below n (pos s) ≡ false = ground (arith, l) in rw (q, c) (tip_from-below n key ls h k)

pub tip_from-top :
    (n m : ℕ) (key : Text) (ks ls : List (Option Text))
    → n < 2 ^ 63
    → m < n
    → All (IsKey n) ks
    → All (IsKey n) ls
    → tip_from m key (ks ++ some (key_for_seq n) ∷ ls) ≡ some (n, key_for_seq n)
unfolding tip_from
tip_from-top n m key [] ls h l k k' =
    let c : below m (pos n) ≡ true = ground (arith, l) in
    rw (seq_from_key-key_for_seq n h, c) (tip_from-below n (key_for_seq n) ls h k')
tip_from-top n m key (none ∷ ks) ls h l ((s, e, t), k) k' = cc
tip_from-top n m key (some j ∷ ks) ls h l ((s, e, t), k) k' =
    let q : seq_from_key j ≡ pos s =
      ap seq_from_key (some-injective e) ∙ seq_from_key-key_for_seq s (omega arith) in
    elim (Bool-cases (below m (pos s))) [
      | inl c ↦ rw (q, c) (tip_from-top n s j ks ls h t k k')
      | inr c ↦ rw (q, c) (tip_from-top n m key ks ls h l k k')
    ]

module _ {W J : Type 0} (b : Bucket W J) where
  read_objects-cons :
      (w : W) (k : Text) (ks : List (Option Text)) (r : Record) (rs : List Record)
      → get_record b w k ≡ some r
      → read_objects b w ks ≡ some rs
      → read_objects b w (some k ∷ ks) ≡ some (r ∷ rs)
  unfolding read_objects
  read_objects-cons w k ks r rs p q = rw (p, q, read_objects) refl

  pub read_objects-append :
      (w : W) (ks ls : List (Option Text)) (xs : List Record)
      → read_objects b w (ks ++ ls) ≡ some xs
      → (ys : List Record) × (zs : List Record) × (read_objects b w ks ≡ some ys)
        × (read_objects b w ls ≡ some zs)
        × (xs ≡ ys ++ zs)
  unfolding read_objects
  read_objects-append w [] ls xs e = ([], xs, refl, e, refl)
  read_objects-append w (none ∷ ks) ls xs e = ground arith
  read_objects-append w (some k ∷ ks) ls xs e = elim (Option-cases (get_record b w k)) [
    | inl x ↦ absurd (ground (arith, e, x))
    | inr (r, x) ↦ elim (Option-cases (read_objects b w (ks ++ ls))) [
      | inl y ↦ absurd (ground (arith, e, x, y))
      | inr (rs, y) ↦
          let (ys, zs, p, q, t) = read_objects-append w ks ls rs y in
          (r ∷ ys, zs, read_objects-cons w k ks r ys x p, q, ground (arith, e, x, y, t))
    ]
  ]

  -- Objects read one after the other, the new one among them.
  pub read_objects-insert :
      (w : W) (ks ls : List (Option Text)) (ys zs : List Record) (k : Text) (r : Record)
      → read_objects b w ks ≡ some ys
      → read_objects b w ls ≡ some zs
      → get_record b w k ≡ some r
      → read_objects b w (ks ++ some k ∷ ls) ≡ some (ys ++ r ∷ zs)
  unfolding read_objects
  read_objects-insert w [] ls ys zs k r p q g =
      let e : ys ≡ [] = cc in rw e (read_objects-cons w k ls r zs g q)
  read_objects-insert w (none ∷ ks) ls ys zs k r p q g = cc
  read_objects-insert w (some j ∷ ks) ls ys zs k r p q g = elim (Option-cases (get_record b w j)) [
    | inl x ↦ absurd (ground (arith, p, x))
    | inr (s, x) ↦ elim (Option-cases (read_objects b w ks)) [
      | inl y ↦ absurd (ground (arith, p, x, y))
      | inr (rs, y) ↦
          let t = read_objects-insert w ks ls rs zs k r y q g in
          let u : ys ≡ s ∷ rs = ground (arith, p, x, y) in
          rw u (read_objects-cons w j (ks ++ some k ∷ ls) s (rs ++ r ∷ zs) x t)
    ]
  ]

  get_record-other :
      (w w1 : W) (key j : Text) (body : J)
      → b.get_object w1 j ≡ (if text_beq key j then some body else b.get_object w j)
      → j ≢ key
      → get_record b w1 j ≡ get_record b w j
  unfolding get_record
  get_record-other w w1 key j body f ne = elim (Bool-cases (text_beq key j)) [
    | inl e ↦ absurd (ne (sym ((text_eq_iff key j).0 e)))
    | inr e ↦ rw (f, e, get_record) refl
  ]

  pub read_objects-other :
      (w w1 : W) (key : Text) (body : J) (ks : List (Option Text)) (ys : List Record)
      → ((j : Text) → b.get_object w1 j ≡ (if text_beq key j then some body else b.get_object w j))
      → All (λ o. o ≢ some key) ks
      → read_objects b w ks ≡ some ys
      → read_objects b w1 ks ≡ some ys
  unfolding read_objects
  read_objects-other w w1 key body [] ys f k e = e
  read_objects-other w w1 key body (none ∷ ks) ys f k e = e
  read_objects-other w w1 key body (some j ∷ ks) ys f (ne, k) e =
      let g = get_record-other w w1 key j body (f j) (λ q. ne (ap some q)) in
      elim (Option-cases (get_record b w j)) [
        | inl x ↦ absurd (ground (arith, e, x))
        | inr (s, x) ↦ elim (Option-cases (read_objects b w ks)) [
          | inl y ↦ absurd (ground (arith, e, x, y))
          | inr (rs, y) ↦
              let u : ys ≡ s ∷ rs = ground (arith, e, x, y) in
              rw u (
                read_objects-cons w1 j ks s rs (g ∙ x)
                  (read_objects-other w w1 key body ks rs f k y))
        ]
      ]
