-- ===== src/Audit/Sorting.antt =====
-- s3.go: the records that `all` reads, put in order.
use mcp_gateway_w.Prelude.{
  ℕ, ◌<◌, ◌≡◌, refl, ap, ◌∙◌, inl, inr, Bool-cases, List, [], ◌∷◌, ◌++◌, leb, All, arith,
}
use mcp_gateway_w.Audit.{Record}
use mcp_gateway_w.Audit.Archive.{insert_by_seq, sort_by_seq}

abbrev pub Below : ℕ → List Record → Type 0
Below n = All (λ (r : Record). r.seq < n)

insert_by_seq-Below :
    (n : ℕ) (r : Record) (rs : List Record) → r.seq < n → Below n rs → Below n (insert_by_seq r rs)
unfolding insert_by_seq
insert_by_seq-Below n r [] h k = (h, tt)
insert_by_seq-Below n r (q ∷ qs) h k = elim (Bool-cases (leb r.seq q.seq)) [
  | inl e ↦ rw e (h, k)
  | inr e ↦ rw e (k.0, insert_by_seq-Below n r qs h k.1)
]

sort_by_seq-Below : (n : ℕ) (rs : List Record) → Below n rs → Below n (sort_by_seq rs)
unfolding sort_by_seq
sort_by_seq-Below n [] h = tt
sort_by_seq-Below n (r ∷ rs) h =
    insert_by_seq-Below n r (sort_by_seq rs) h.0 (sort_by_seq-Below n rs h.1)

insert_by_seq-last :
    (r : Record) (rs : List Record) → Below r.seq rs → insert_by_seq r rs ≡ rs ++ r ∷ []
unfolding insert_by_seq
insert_by_seq-last r [] h = refl
insert_by_seq-last r (q ∷ qs) h = ground (arith, h.0, insert_by_seq-last r qs h.1)

insert_by_seq-append :
    (q r : Record) (rs : List Record)
    → q.seq < r.seq
    → insert_by_seq q (rs ++ r ∷ []) ≡ insert_by_seq q rs ++ r ∷ []
unfolding insert_by_seq
insert_by_seq-append q r [] h = ground arith
insert_by_seq-append q r (p ∷ ps) h = ground (arith, insert_by_seq-append q r ps h)

-- A record of the greatest number comes last, wherever it was read.
pub sort_by_seq-append :
    (xs ys : List Record) (r : Record)
    → Below r.seq (xs ++ ys)
    → sort_by_seq (xs ++ r ∷ ys) ≡ sort_by_seq (xs ++ ys) ++ r ∷ []
unfolding sort_by_seq
sort_by_seq-append [] ys r h = insert_by_seq-last r (sort_by_seq ys) (sort_by_seq-Below r.seq ys h)
sort_by_seq-append (x ∷ xs) ys r h =
    ap (insert_by_seq x) (sort_by_seq-append xs ys r h.1)
    ∙ insert_by_seq-append x r (sort_by_seq (xs ++ ys)) h.0
