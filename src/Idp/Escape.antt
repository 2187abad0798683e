-- ===== src/Idp/Escape.antt =====
-- What rest.go and directory.go use of net/url: `PathEscape` and `QueryEscape`, which write a byte as
-- it is or as `%` with two upper-case hexadecimal digits. A byte is a number below 256.
use mcp_gateway_w.Prelude.{
  ℕ, ◌+◌, ◌/◌, ◌%◌, ◌<◌, ◌≡◌, ◌≢◌, refl, sym, inl, inr, Bool, ◌&&◌, ◌||◌, [], ◌∷◌, ◌++◌, Text, All,
  Lacks, All-append, Bool-cases, ltb, leb, nat_beq, if◌then◌else◌, arith,
}

-- Letters, digits and `-_.~`.
abbrev pub is_unreserved : ℕ → Bool
is_unreserved c =
    (leb b'a' c && leb c b'z')
    || (leb b'A' c && leb c b'Z')
    || (leb b'0' c && leb c b'9')
    || nat_beq c b'-'
    || nat_beq c b'_'
    || nat_beq c b'.'
    || nat_beq c b'~'

-- What stands for itself in a segment of a path: besides, `$&+:=@`.
abbrev pub is_segment : ℕ → Bool
is_segment c =
    is_unreserved c
    || nat_beq c b'$'
    || nat_beq c b'&'
    || nat_beq c b'+'
    || nat_beq c b':'
    || nat_beq c b'='
    || nat_beq c b'@'

abbrev pub hex_digit : ℕ → ℕ
hex_digit d = if ltb d 10 then 48 + d else 55 + d

abbrev pub percent : ℕ → Text
percent c = b'%' ∷ hex_digit (c / 16) ∷ hex_digit (c % 16) ∷ []

abbrev segment_byte : ℕ → Text
segment_byte c = if is_segment c then c ∷ [] else percent c

unfoldable pub path_escape : Text → Text
path_escape [] = []
path_escape (c ∷ s) = segment_byte c ++ path_escape s

abbrev query_byte : ℕ → Text
query_byte c = if is_unreserved c then c ∷ [] else if nat_beq c 32 then b'+' ∷ [] else percent c

unfoldable pub query_escape : Text → Text
query_escape [] = []
query_escape (c ∷ s) = query_byte c ++ query_escape s

abbrev pub IsBytes : Text → Type 0
IsBytes s = All (λ c. c < 256) s

segment_byte-Lacks : (c : ℕ) → Lacks b'/' (segment_byte c)
segment_byte-Lacks c = elim (Bool-cases (is_segment c)) [
  | inl e ↦ rw e (ground (arith, e), tt)
  | inr e ↦ rw e (ground arith, (ground arith, (ground arith, tt)))
]

-- An escaped segment holds no slash.
pub path_escape-Lacks : (s : Text) → Lacks b'/' (path_escape s)
unfolding path_escape
path_escape-Lacks [] = tt
path_escape-Lacks (c ∷ s) =
    All-append _ (segment_byte c) (path_escape s) (segment_byte-Lacks c) (path_escape-Lacks s)

hex_digit-injective : (a b : ℕ) → a < 16 → b < 16 → hex_digit a ≡ hex_digit b → a ≡ b
hex_digit-injective a b p q e = ground arith

segment_byte-injective :
    (c d : ℕ) (u v : Text)
    → c < 256
    → d < 256
    → segment_byte c ++ u ≡ segment_byte d ++ v
    → (c ≡ d) × (u ≡ v)
segment_byte-injective c d u v p q e = elim (Bool-cases (is_segment c)) [
  | inl x ↦ elim (Bool-cases (is_segment d)) [
    | inl y ↦ let e1 : c ∷ u ≡ d ∷ v = rw x at (rw y at e) in (cc, cc)
    | inr y ↦
        let e1 : c ∷ u ≡ percent d ++ v = rw x at (rw y at e) in
        let e2 : c ≡ 37 = cc in absurd (ground (arith, x, e2))
  ]
  | inr x ↦ elim (Bool-cases (is_segment d)) [
    | inl y ↦
        let e1 : percent c ++ u ≡ d ∷ v = rw x at (rw y at e) in
        let e2 : d ≡ 37 = cc in absurd (ground (arith, y, e2))
    | inr y ↦
        let e1 : percent c ++ u ≡ percent d ++ v = rw x at (rw y at e) in
        let hi = hex_digit-injective (c / 16) (d / 16) (omega arith) (omega arith) (cc) in
        let lo = hex_digit-injective (c % 16) (d % 16) (omega arith) (omega arith) (cc) in
        (omega (arith, hi, lo), cc)
  ]
]

segment_byte-nonempty : (c : ℕ) (u : Text) → [] ≢ segment_byte c ++ u
segment_byte-nonempty c u = ground arith

-- Different texts are escaped differently.
pub path_escape-injective :
    (s t : Text) → IsBytes s → IsBytes t → path_escape s ≡ path_escape t → s ≡ t
unfolding path_escape
path_escape-injective [] [] p q e = refl
path_escape-injective [] (d ∷ t) p q e = absurd (segment_byte-nonempty d (path_escape t) e)
path_escape-injective (c ∷ s) [] p q e = absurd (segment_byte-nonempty c (path_escape s) (sym e))
path_escape-injective (c ∷ s) (d ∷ t) p q e =
    let (h, r) = segment_byte-injective c d (path_escape s) (path_escape t) p.0 q.0 e in
    let i = path_escape-injective s t p.1 q.1 r in cc
