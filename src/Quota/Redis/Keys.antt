-- ===== src/Quota/Redis/Keys.antt =====
-- redis.go: the Redis key of a window names the key and the window.
use mcp_gateway_w.Prelude.{
  ℕ, ◌≡◌, refl, sym, ◌∙◌, inl, inr, ◌&&◌, Bool-cases, [], ◌∷◌, ◌++◌, Text, lit, text_beq,
  text_eq_iff, nat_beq, nat_beq_iff, Lacks, append_left-injective, arith,
}
use mcp_gateway_w.Audit.{decimal}
use mcp_gateway_w.Audit.Keys.{decimal-injective, decimal-Lacks_colon}
use mcp_gateway_w.Quota.Redis.{redis_key}

not_Lacks-append : (c : ℕ) (s t : Text) → Lacks c (s ++ c ∷ t) → ⊥
not_Lacks-append c [] t h = h.0 refl
not_Lacks-append c (a ∷ s) t h = not_Lacks-append c s t h.1

-- A text in two parts, told apart by the last separator.
append_last_sep-injective :
    (c : ℕ) (s t u v : Text) → Lacks c u → Lacks c v → s ++ c ∷ u ≡ t ++ c ∷ v → (s ≡ t) × (u ≡ v)
append_last_sep-injective c [] [] u v hu hv e = (refl, cc)
append_last_sep-injective c [] (b ∷ t) u v hu hv e =
    let q : u ≡ t ++ c ∷ v = cc in absurd (not_Lacks-append c t v (rw q at hu))
append_last_sep-injective c (a ∷ s) [] u v hu hv e =
    let q : v ≡ s ++ c ∷ u = cc in absurd (not_Lacks-append c s u (rw q at hv))
append_last_sep-injective c (a ∷ s) (b ∷ t) u v hu hv e =
    let (p, q) = append_last_sep-injective c s t u v hu hv (cc) in (cc, q)

redis_key-injective : (k j : Text) (m n : ℕ) → redis_key k m ≡ redis_key j n → (k ≡ j) × (m ≡ n)
unfolding redis_key
redis_key-injective k j m n e =
    let (p, q) =
      append_last_sep-injective b':' k j (decimal m) (decimal n) (decimal-Lacks_colon m)
        (decimal-Lacks_colon n) (append_left-injective (lit "quota:") _ _ e) in
    (p, decimal-injective m n q)

-- Two windows share a counter exactly if they are the same window of the same key.
pub redis_key-beq :
    (k j : Text) (m n : ℕ)
    → text_beq (redis_key k m) (redis_key j n) ≡ (text_beq k j && nat_beq m n)
redis_key-beq k j m n = elim (Bool-cases (text_beq (redis_key k m) (redis_key j n))) [
  | inl x ↦
      let (p, q) =
        redis_key-injective k j m n ((text_eq_iff (redis_key k m) (redis_key j n)).0 x) in
      rw x (ground (arith, p, q, text_eq_iff k j, nat_beq_iff m n))
  | inr x ↦ elim (Bool-cases (text_beq k j && nat_beq m n)) [
    | inr y ↦ x ∙ sym y
    | inl y ↦
        let p : k ≡ j = ground (arith, y, text_eq_iff k j) in
        let q : m ≡ n = ground (arith, y, nat_beq_iff m n) in
        let r : redis_key k m ≡ redis_key j n = cc in
        absurd (ground (arith, x, r, text_eq_iff (redis_key k m) (redis_key j n)))
  ]
]
