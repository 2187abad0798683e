-- ===== src/Audit/Keys.antt =====
-- s3.go: the key of an object and the number that is read from it.
use mcp_gateway_w.Prelude.{
  ℕ, zero, suc, ◌+◌, ◌-◌, ◌*◌, ◌/◌, ◌%◌, ◌^◌, ◌≤◌, ◌<◌, ◌≡◌, ◌≢◌, refl, sym, ap, ◌∙◌, inl, inr,
  true, false, Bool-cases, [], ◌∷◌, ◌++◌, some, Text, Text-cases, lit, text_beq, text_eq_iff,
  eq_refl, ltb, ltb→lt, nat_beq, length, length-append, arith, ℤ, pos, pos_part, ◌||◌, Lacks,
  All-append,
}
use mathlib.Core.List.{append_assoc, append-nil}
use mcp_gateway_w.Authz.{without_suffix}
use mcp_gateway_w.Audit.{digits, decimal, newline}
use mcp_gateway_w.Audit.Archive.{
  zeros, padded, key_for_seq, trim_prefix, trim_suffix, parse_digits, parse_int, seq_from_key,
}

without_suffix-append : (s u : Text) → without_suffix u (s ++ u) ≡ some s
unfolding without_suffix text_beq
without_suffix-append [] [] = refl
without_suffix-append [] (a ∷ u) = rw (eq_refl (a ∷ u)) refl
without_suffix-append (b ∷ s) u = elim (Bool-cases (text_beq (b ∷ s ++ u) u)) [
  | inl e ↦
      absurd (omega (arith, ap length ((text_eq_iff (b ∷ s ++ u) u).0 e), length-append (b ∷ s) u))
  | inr e ↦ rw (e, without_suffix-append s u) refl
]

parse_digits-cons :
    (acc d : ℕ) (t : Text)
    → d < 10
    → parse_digits acc ((48 + d) ∷ t) ≡ parse_digits (acc * 10 + d) t
unfolding parse_digits
parse_digits-cons acc d t h = let e : 48 + d - 48 ≡ d = omega arith in rw e (ground (arith, h))

parse_digits-digits :
    (fuel n : ℕ) (t : Text) → n < fuel → parse_digits 0 (digits fuel n ++ t) ≡ parse_digits n t
unfolding parse_digits digits
parse_digits-digits zero n t h = absurd (omega arith)
parse_digits-digits (suc fuel) n t h = elim (Bool-cases (ltb n 10)) [
  | inl e ↦
      rw e
        (parse_digits-cons 0 n t (ltb→lt n 10 e) ∙ ap (λ (m : ℕ). parse_digits m t) (omega arith))
  | inr e ↦
      rw (e, append_assoc (digits fuel (n / 10)) ((48 + n % 10) ∷ []) t)
        (parse_digits-digits fuel (n / 10) ((48 + n % 10) ∷ t) (ground (arith, e))
          ∙ parse_digits-cons (n / 10) (n % 10) t (omega arith)
          ∙ ap (λ (m : ℕ). parse_digits m t) (omega arith))
]

parse_digits-zeros : (k : ℕ) (s : Text) → parse_digits 0 (zeros k ++ s) ≡ parse_digits 0 s
unfolding zeros parse_digits
parse_digits-zeros zero s = refl
parse_digits-zeros (suc k) s = parse_digits-zeros k s

parse_digits-decimal : (n : ℕ) → parse_digits 0 (decimal n) ≡ some n
unfolding decimal parse_digits
parse_digits-decimal n =
    ap (parse_digits 0) (sym (append-nil (decimal n)))
    ∙ parse_digits-digits (suc n) n [] (omega arith)

-- A byte that is no digit does not stand in a printed number.
digits-Lacks : (c fuel n : ℕ) → ltb c 48 || ltb 57 c ≡ true → Lacks c (digits fuel n)
unfolding digits
digits-Lacks c zero n h = tt
digits-Lacks c (suc fuel) n h = elim (Bool-cases (ltb n 10)) [
  | inl e ↦ rw e (ground arith, tt)
  | inr e ↦ rw e (
      All-append (λ b. b ≢ c) (digits fuel (n / 10)) _ (digits-Lacks c fuel (n / 10) h)
        (ground arith, tt))
]

pub decimal-Lacks : (n : ℕ) → Lacks newline (decimal n)
unfolding decimal
decimal-Lacks n = digits-Lacks newline (suc n) n refl

pub decimal-Lacks_colon : (n : ℕ) → Lacks b':' (decimal n)
unfolding decimal
decimal-Lacks_colon n = digits-Lacks b':' (suc n) n refl

-- Different numbers are printed differently.
pub decimal-injective : (m n : ℕ) → decimal m ≡ decimal n → m ≡ n
decimal-injective m n e =
    let p : some m ≡ some n =
      sym (parse_digits-decimal m) ∙ (ap (parse_digits 0) e ∙ parse_digits-decimal n) in
    cc

parse_digits-padded : (n : ℕ) → parse_digits 0 (padded n) ≡ some n
unfolding padded decimal parse_digits
parse_digits-padded n =
    parse_digits-zeros (20 - length (decimal n)) (decimal n) ∙ parse_digits-decimal n

digits_nonempty : (fuel n : ℕ) → digits (suc fuel) n ≢ []
unfolding digits
digits_nonempty fuel n e = elim (Bool-cases (ltb n 10)) [
  | inl x ↦ let f = rw x at e in cc
  | inr x ↦
      let f = rw x at e in
      absurd (omega (arith, ap length f, length-append (digits fuel (n / 10)) ((48 + n % 10) ∷ [])))
]

padded_nonempty : (n : ℕ) → padded n ≢ []
unfolding padded decimal
padded_nonempty n e =
    let k = length-append (zeros (20 - length (decimal n))) (decimal n) in
    elim (Text-cases (decimal n)) [
      | inl f ↦ digits_nonempty n n f
      | inr (b, t, f) ↦ absurd (omega (arith, k, ap length e, ap length f))
    ]

digit_first : (b n : ℕ) (s : Text) → parse_digits 0 (b ∷ s) ≡ some n → 48 ≤ b
unfolding parse_digits
digit_first b n s e = ground arith

parse_int-digits :
    (s : Text) (n : ℕ)
    → s ≢ []
    → parse_digits 0 s ≡ some n
    → n < 2 ^ 63
    → parse_int s ≡ some (pos n)
unfolding parse_int
parse_int-digits [] n ne e h = absurd (ne refl)
parse_int-digits (b ∷ s) n ne e h =
    let d = digit_first b n s e in
    let plus : nat_beq b 43 ≡ false = ground (arith, d) in
    let minus : nat_beq b 45 ≡ false = ground (arith, d) in
    let small : ltb n (2 ^ 63) ≡ true = ground (arith, h) in rw (plus, minus, e, small) refl

trim_suffix-append : (s u : Text) → trim_suffix u (s ++ u) ≡ s
unfolding trim_suffix
trim_suffix-append s u = rw (without_suffix-append s u, trim_suffix) refl

seq_of :
    (key : Text) {s : Text} {z : ℤ}
    → trim_suffix (lit ".json") (trim_prefix key (lit "audit/") key) ≡ s
    → parse_int s ≡ some z
    → seq_from_key key ≡ z
unfolding seq_from_key
seq_of key p q = rw (p, q) refl

-- The number that is read from a record's key is its own, below 2^63.
pub seq_from_key-key_for_seq : (n : ℕ) → n < 2 ^ 63 → seq_from_key (key_for_seq n) ≡ pos n
unfolding seq_from_key key_for_seq trim_prefix
seq_from_key-key_for_seq n h =
    seq_of (key_for_seq n) (trim_suffix-append (padded n) (lit ".json"))
      (parse_int-digits (padded n) n (padded_nonempty n) (parse_digits-padded n) h)

pub key_for_seq-injective :
    (m n : ℕ) → m < 2 ^ 63 → n < 2 ^ 63 → key_for_seq m ≡ key_for_seq n → m ≡ n
key_for_seq-injective m n h k e =
    let p =
      sym (seq_from_key-key_for_seq m h) ∙ (ap seq_from_key e ∙ seq_from_key-key_for_seq n k) in
    ap pos_part p
