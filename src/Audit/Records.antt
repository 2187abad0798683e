-- ===== src/Audit/Records.antt =====
-- audit.go: which records `List` gives, and what `hashRecord` does not tell apart.
use mcp_gateway_w.Prelude.{
  ℕ, zero, suc, ◌+◌, ◌≡◌, refl, List, [], ◌∷◌, ◌++◌, Text, text_beq, ltb, arith, if◌then◌else◌,
}
use mcp_gateway_w.Audit.{Record, Digest, newline, preimage, list_from, newest_first, list_records}

unfoldable pub of_org : Text → List Record → List Record
of_org org [] = []
of_org org (r ∷ rs) = if text_beq r.event.org_id org then r ∷ of_org org rs else of_org org rs

unfoldable pub first : ℕ → List Record → List Record
first zero rs = []
first (suc n) [] = []
first (suc n) (r ∷ rs) = r ∷ first n rs

unlimited : (org : Text) (taken : ℕ) (rs : List Record) → list_from org 0 taken rs ≡ of_org org rs
unfolding list_from of_org
unlimited org taken [] = refl
unlimited org taken (r ∷ rs) = ground (arith, unlimited org taken rs, unlimited org (taken + 1) rs)

limited :
    (org : Text) (left taken : ℕ) (rs : List Record)
    → list_from org (taken + suc left) taken rs ≡ first (suc left) (of_org org rs)
unfolding list_from of_org first
limited org left taken [] = refl
limited org zero taken (r ∷ rs) = ground (arith, limited org zero taken rs)
limited org (suc left) taken (r ∷ rs) =
    ground (arith, limited org (suc left) taken rs, limited org left (taken + 1) rs)

-- `List` gives exactly the records of the organization, newest first, up to the first `limit` of
-- them if the limit is positive.
list_records-of_org :
    (org : Text) (limit : ℕ) (rs : List Record)
    → list_records org limit rs ≡ (
        if ltb 0 limit
        then first limit (of_org org (newest_first rs))
        else of_org org (newest_first rs))
unfolding list_records
list_records-of_org org zero rs = unlimited org 0 (newest_first rs)
list_records-of_org org (suc n) rs = ground (arith, limited org n 0 (newest_first rs))

append_assoc : (s t u : Text) → (s ++ t) ++ u ≡ s ++ (t ++ u)
append_assoc [] t u = refl
append_assoc (a ∷ s) t u = cc (append_assoc s t u)

-- A newline in an organization or actor can move from the one to the other with all that follows it:
-- the two records, which differ, have the same hashed contents.
preimage-moved_newline :
    (d : Digest) (r : Record) (a b c : Text)
    → preimage d (record r { event = record r.event { org_id = a ++ newline ∷ b; actor = c } })
      ≡ preimage d (record r { event = record r.event { org_id = a; actor = b ++ newline ∷ c } })
unfolding preimage
preimage-moved_newline d r a b c = simp append_assoc
