-- ===== src/DevApi/Listing.antt =====
-- devapi.go: which organizations are listed.
use mcp_gateway_w.Prelude.{
  ℕ, suc, ◌≡◌, refl, ap, ◌∙◌, inl, inr, true, false, Bool-cases, List, [], ◌∷◌, some, Text,
  text_beq, text_eq_iff, arith, if◌then◌else◌,
}
use mcp_gateway_w.Audit.{text_leb}
use mcp_gateway_w.Idp.{Answer, ok}
use mcp_gateway_w.DevApi.{orgs, is_system, tenant_realms, insert_text, sort_texts, list_orgs}

pub count : Text → List Text → ℕ
count x [] = 0
count x (t ∷ ts) = if text_beq t x then suc (count x ts) else count x ts

abbrev pub IsSorted : List Text → Type 0
IsSorted [] = Unit
IsSorted (s ∷ []) = Unit
IsSorted (s ∷ t ∷ ts) = (text_leb s t ≡ true) × IsSorted (t ∷ ts)

text_leb-total : (s t : Text) → text_leb s t ≡ false → text_leb t s ≡ true
unfolding text_leb
text_leb-total [] t h = absurd (ground (arith, h))
text_leb-total (a ∷ s) [] h = refl
text_leb-total (a ∷ s) (b ∷ t) h = ground (arith, text_leb-total s t)

insert_text-IsSorted : (s : Text) (ts : List Text) → IsSorted ts → IsSorted (insert_text s ts)
unfolding insert_text
insert_text-IsSorted s [] h = tt
insert_text-IsSorted s (t ∷ []) h = elim (Bool-cases (text_leb s t)) [
  | inl x ↦ rw x (x, tt)
  | inr x ↦ rw x (text_leb-total s t x, tt)
]
insert_text-IsSorted s (t ∷ u ∷ us) h = elim (Bool-cases (text_leb s t)) [
  | inl x ↦ rw x (x, h)
  | inr x ↦ elim (Bool-cases (text_leb s u)) [
    | inl y ↦ rw (x, y) (text_leb-total s t x, (y, h.1))
    | inr y ↦
        let ih : IsSorted (u ∷ insert_text s us) = rw y at (insert_text-IsSorted s (u ∷ us) h.1) in
        rw (x, y) (h.0, ih)
  ]
]

sort_texts-IsSorted : (ts : List Text) → IsSorted (sort_texts ts)
unfolding sort_texts
sort_texts-IsSorted [] = tt
sort_texts-IsSorted (s ∷ ts) = insert_text-IsSorted s (sort_texts ts) (sort_texts-IsSorted ts)

count-insert_text : (x s : Text) (ts : List Text) → count x (insert_text s ts) ≡ count x (s ∷ ts)
unfolding insert_text count
count-insert_text x s [] = refl
count-insert_text x s (t ∷ ts) = ground (arith, count-insert_text x s ts)

count-sort_texts : (x : Text) (ts : List Text) → count x (sort_texts ts) ≡ count x ts
unfolding sort_texts count
count-sort_texts x [] = refl
count-sort_texts x (s ∷ ts) =
    ground (arith, count-insert_text x s (sort_texts ts), count-sort_texts x ts)

count-tenant_realms :
    (x : Text) (ts : List Text)
    → count x (tenant_realms ts) ≡ (if is_system x then 0 else count x ts)
unfolding tenant_realms count
count-tenant_realms x [] = ground arith
count-tenant_realms x (t ∷ ts) = elim (Bool-cases (text_beq t x)) [
  | inl e ↦
      let i = ap is_system ((text_eq_iff t x).0 e) in ground (arith, e, i, count-tenant_realms x ts)
  | inr e ↦ ground (arith, e, count-tenant_realms x ts)
]

-- The console is offered the realms that the identity provider lists, in order and each as often, but
-- none of the system's; or an error, if they cannot be listed.
list_orgs-Lists :
    {W : Type 0} (lister : W → Answer (List Text) × W) (w : W) (rs : List Text)
    → (lister w).0 ≡ ok rs
    → (os : List Text) × ((list_orgs (some lister) w).0 ≡ orgs os)
      × IsSorted os
      × ((x : Text) → count x os ≡ (if is_system x then 0 else count x rs))
unfolding list_orgs
list_orgs-Lists lister w rs h = (
  sort_texts (tenant_realms rs),
  rw h refl,
  sort_texts-IsSorted (tenant_realms rs),
  λ x. count-sort_texts x (tenant_realms rs) ∙ count-tenant_realms x rs,
)
