-- ===== src/Admin/Listed.antt =====
-- store.go: the servers that a listing of an organization gives.
use mcp_gateway_w.Prelude.{
  ◌≡◌, ap, subst, ◌∙◌, ◌⊎◌, inl, inr, true, false, Bool-cases, List, [], ◌∷◌, none, some, Text,
  text_beq, text_eq_iff, eq_refl, arith, if◌then◌else◌, All,
}
use mcp_gateway_w.Prelude.Dict.{Dict, lookup, Distinct}
use mcp_gateway_w.Admin.{Server, Store, store_key, servers_of, list_servers, delete_server}
use mcp_gateway_w.Admin.Stored.{IsEntry, IsStored}

-- A server of the organization that is stored, or is no longer.
abbrev pub Listed : Text → Dict Server → Server → Type 0
Listed org m s =
    (s.org_id ≡ org)
    × ((lookup (store_key org s.id) m ≡ some s) ⊎ (lookup (store_key org s.id) m ≡ none))

pub All-map :
    {A : Type 0} (P Q : A → Type 0) (xs : List A) → ((x : A) → P x → Q x) → All P xs → All Q xs
All-map P Q [] f h = tt
All-map P Q (x ∷ xs) f h = (f x h.0, All-map P Q xs f h.1)

servers_of-found :
    (org : Text) (m : Dict Server)
    → Distinct m
    → All (λ s. (s.org_id ≡ org) × (k : Text) × (lookup k m ≡ some s)) (servers_of org m)
unfolding servers_of lookup
servers_of-found org [] d = tt
servers_of-found org ((k, s) ∷ m) (e, d) =
    let rest =
      All-map (λ t. (t.org_id ≡ org) × (j : Text) × (lookup j m ≡ some t))
        (λ t. (t.org_id ≡ org) × (j : Text) × (lookup j ((k, s) ∷ m) ≡ some t)) (servers_of org m)
        (λ t (o, j, f). (o, j, ground (arith, e, f, text_eq_iff k j))) (servers_of-found org m d) in
    elim (Bool-cases (text_beq s.org_id org)) [
      | inl b ↦
          rw b ((ground (arith, b, text_eq_iff s.org_id org), k, ground (arith, eq_refl k)), rest)
      | inr b ↦ rw b rest
    ]

pub list_servers-Listed :
    (m : Store) (org : Text) → IsStored m → All (Listed org m.by_id) (list_servers m org)
unfolding list_servers
list_servers-Listed m org w =
    All-map (λ s. (s.org_id ≡ org) × (k : Text) × (lookup k m.by_id ≡ some s)) (Listed org m.by_id)
      (servers_of org m.by_id)
      (λ s (o, k, f). (
        o,
        inl (
            subst (λ j. lookup j m.by_id ≡ some s)
              (IsEntry.key (w.entry k s f) ∙ ap (λ x. store_key x s.id) o) f),
      ))
      (servers_of-found org m.by_id w.distinct)

-- What holds of every listed server holds of every stored one of the organization.
pub delete_server-none :
    (m : Store) (org id : Text)
    → lookup (store_key org id) m.by_id ≡ none
    → delete_server m org id ≡ (false, m)
unfolding delete_server
delete_server-none m org id e = ground (arith, e)

pub servers_of-covers :
    (P : Server → Type 0) (org : Text) (m : Dict Server) (k : Text) (s : Server)
    → lookup k m ≡ some s
    → s.org_id ≡ org
    → All P (servers_of org m)
    → P s
unfolding servers_of lookup
servers_of-covers P org [] k s e o a = absurd (ground (arith, e))
servers_of-covers P org ((j, t) ∷ m) k s e o a = elim (Bool-cases (text_beq j k)) [
  | inl b ↦
      let same : t ≡ s = ground (arith, b, e) in
      let c : text_beq t.org_id org ≡ true = ground (arith, o, same, text_eq_iff t.org_id org) in
      let here = subst (λ x. All P (if x then t ∷ servers_of org m else servers_of org m)) c a in
      subst P same here.0
  | inr b ↦
      let e1 : lookup k m ≡ some s = ground (arith, b, e) in
      elim (Bool-cases (text_beq t.org_id org)) [
        | inl c ↦
            servers_of-covers P org m k s e1 o
              (subst (λ x. All P (if x then t ∷ servers_of org m else servers_of org m)) c a).1
        | inr c ↦
            servers_of-covers P org m k s e1 o
              (subst (λ x. All P (if x then t ∷ servers_of org m else servers_of org m)) c a)
      ]
]
