-- ===== src/Sandbox/Replies.antt =====
-- stdio.go: which line answers a call.
use mcp_gateway_w.Prelude.{
  ℕ, suc, ◌≡◌, refl, sym, ap, ◌∙◌, inl, inr, Bool-cases, Option-cases, List, [], ◌∷◌, ◌++◌, Option,
  none, some, Text, text_beq, text_eq_iff, is_empty, trim_space, All, arith,
}
use mcp_gateway_w.Audit.{decimal}
use mcp_gateway_w.Audit.Keys.{decimal-injective}
use mcp_gateway_w.Sandbox.{Codec, Conn, result, Reply, reply_in, read_reply, call}

-- A line, with the text `t` in its reply, after lines that are passed over.
abbrev pub Answers : {T : Type 0} → Codec T → Text → List Text → Text → List Text → Type 0
Answers json want lines t rest =
    (skipped : List Text) × (line : Text) × (r : Reply) × (lines ≡ skipped ++ line ∷ rest)
    × All (λ l. reply_in want (json.decode l) ≡ none) skipped
    × (reply_in want (json.decode line) ≡ some r)
    × (r.error ≡ none)
    × (r.result ≡ t)

reply_in-id :
    (want : Text) (o : Option Reply) (r : Reply)
    → reply_in want o ≡ some r
    → (o ≡ some r) × (trim_space r.id ≡ want)
unfolding reply_in
reply_in-id want none r h = cc
reply_in-id want (some q) r h = elim (Bool-cases (is_empty q.id)) [
  | inl x ↦ absurd (ground (arith, x, h))
  | inr x ↦ elim (Bool-cases (text_beq (trim_space q.id) want)) [
    | inl y ↦
        let e : some q ≡ some r = rw (x, y) at h in
        let f : q ≡ r = cc in
        (e, ap (λ (z : Reply). trim_space z.id) (sym f) ∙ (text_eq_iff (trim_space q.id) want).0 y)
    | inr y ↦ absurd (ground (arith, x, y, h))
  ]
]

-- A reply carries one number.
one_number :
    (n m : ℕ) (o : Option Reply) (r r' : Reply)
    → reply_in (decimal n) o ≡ some r
    → reply_in (decimal m) o ≡ some r'
    → m ≡ n
one_number n m o r r' p q =
    let (a, b) = reply_in-id (decimal n) o r p in
    let (c, d) = reply_in-id (decimal m) o r' q in
    let e : some r ≡ some r' = sym a ∙ c in
    let f : r ≡ r' = cc in
    decimal-injective m n (sym d ∙ (ap (λ (z : Reply). trim_space z.id) (sym f) ∙ b))

module _ {T : Type 0} (json : Codec T) where
  read_reply-Answers :
      (want : Text) (lines : List Text) (t : Text)
      → (read_reply json want lines).0 ≡ result t
      → Answers json want lines t (read_reply json want lines).1
  unfolding read_reply
  read_reply-Answers want [] t h = cc
  read_reply-Answers want (line ∷ lines) t h =
      elim (Option-cases (reply_in want (json.decode line))) [
        | inl x ↦
            let (skipped, l, r, a, b, c, d, e) =
              read_reply-Answers want lines t (rw (x, read_reply) at h) in
            rw (x, read_reply)
              (line ∷ skipped, l, r, ap (λ (ls : List Text). line ∷ ls) a, (x, b), c, d, e)
        | inr (r, x) ↦ elim (Option-cases r.error) [
          | inl y ↦ rw (x, read_reply) ([], line, r, refl, tt, x, y, ground (arith, x, y, h))
          | inr (msg, y) ↦ absurd (ground (arith, x, y, h))
        ]
      ]

  -- What a call answers as a result stands in the first line that carries the call's number; it is
  -- the reply to no call of another number, and the lines before it are passed over.
  pub call-Own :
      (c : Conn) (method params t : Text)
      → (call json c method params).0 ≡ result t
      → Answers json (decimal (suc c.id)) c.lines t (call json c method params).1.lines
        × ((m : ℕ) (o : Option Reply) (r r' : Reply)
            → reply_in (decimal (suc c.id)) o ≡ some r
            → reply_in (decimal m) o ≡ some r'
            → m ≡ suc c.id)
  unfolding call
  call-Own c method params t h = elim (Bool-cases (c.takes (suc c.id))) [
    | inl x ↦
        rw (x, call)
          (
            read_reply-Answers (decimal (suc c.id)) c.lines t (rw (x, call) at h),
            λ m o r r' p q. one_number (suc c.id) m o r r' p q,
          )
    | inr x ↦ absurd (ground (arith, x, h))
  ]
