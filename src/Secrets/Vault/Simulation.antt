-- ===== src/Secrets/Vault/Simulation.antt =====
-- vault.go and secrets.go: Vault keeps the secrets as the store in memory does.
use mcp_gateway_w.Prelude.{
  ℕ, true, not, ◌&&◌, ◌||◌, leb, nat_beq, All, ◌/◌, ◌≡◌, refl, sym, ap, ◌∙◌, inl, inr, Bool, List,
  [], ◌∷◌, Option, none, some, Text, lit, text_beq, Option-cases, if◌then◌else◌,
}
use mcp_gateway_w.Prelude.Dict.{Dict, lookup, lookup-insert, lookup-erase}
use mcp_gateway_w.Secrets.{mem_store}
use mcp_gateway_w.Secrets.Vault.{
  Response, answer, Network, VaultStore, data_url, metadata_url, Got, found, not_found, vault_do,
  vault_put, vault_get, vault_delete,
}

abbrev is_plain_byte : ℕ → Bool
is_plain_byte b =
    (leb b'a' b && leb b b'z')
    || (leb b'A' b && leb b b'Z')
    || (leb b'0' b && leb b b'9')
    || nat_beq b b'-'
    || nat_beq b b'_'

-- Segments of letters, digits, '-' and '_' with a slash between two of them; `slash` says that a
-- segment begins. Other references do not name a path of their own: the code does not escape them, so
-- that a '?' or '#' cuts the path, a '%' is decoded and an empty or dotted segment is cleaned away.
unfoldable plain_from : Bool → Text → Bool
plain_from slash [] = not slash
plain_from slash (b ∷ s) =
    (if nat_beq b b'/' then not slash else is_plain_byte b) && plain_from (nat_beq b b'/') s

unfoldable pub is_plain : Text → Bool
unfolding plain_from
is_plain ref = plain_from true ref

-- What Vault documents of a mount of its second key-value engine, to whoever holds the token, for plain
-- references: `holds` are the latest versions.
pub record Engine {W J : Type 0} (net : Network W J) (v : VaultStore)
    (holds : W → Text → Option (Dict Text)) : Type 0 where
  pub posted :
      (w : W) (ref : Text) (values : Dict Text)
      → is_plain ref ≡ true
      → let r = vault_do net v w (lit "POST") (data_url v ref) (some values) in
        ((s : Response J) × (r.0 ≡ answer s) × (s.status / 100 ≡ 2))
        × ((j : Text)
            → is_plain j ≡ true
            → holds r.1 j ≡ (if text_beq ref j then some values else holds w j))
  pub got :
      (w : W) (ref : Text) (values : Dict Text)
      → is_plain ref ≡ true
      → holds w ref ≡ some values
      → let r = vault_do net v w (lit "GET") (data_url v ref) none in
        ((s : Response J) × (r.0 ≡ answer s) × (s.status ≡ 200) × (net.decode s.body ≡ some values))
        × ((j : Text) → is_plain j ≡ true → holds r.1 j ≡ holds w j)
  pub absent :
      (w : W) (ref : Text)
      → is_plain ref ≡ true
      → holds w ref ≡ none
      → let r = vault_do net v w (lit "GET") (data_url v ref) none in
        ((s : Response J) × (r.0 ≡ answer s) × (s.status ≡ 404))
        × ((j : Text) → is_plain j ≡ true → holds r.1 j ≡ holds w j)
  pub removed :
      (w : W) (ref : Text)
      → is_plain ref ≡ true
      → let r = vault_do net v w (lit "DELETE") (metadata_url v ref) none in
        ((s : Response J) × (r.0 ≡ answer s) × (s.status ≡ 204))
        × ((j : Text)
            → is_plain j ≡ true
            → holds r.1 j ≡ (if text_beq ref j then none else holds w j))

pub data Op : Type 0 where
  puts : Text → Dict Text → Op
  gets deletes : Text → Op

abbrev pub ref_of : Op → Text
ref_of (puts ref values) = ref
ref_of (gets ref) = ref
ref_of (deletes ref) = ref

pub data Answer : Type 0 where
  done : Bool → Answer
  value : Option (Dict Text) → Answer
  broken : Answer

abbrev answer_of : Got → Answer
answer_of (found values) = value (some values)
answer_of not_found = value none
answer_of Got.failed = broken

-- One operation on Vault, and on the store in memory.
unfoldable pub run_vault : {W J : Type 0} → Network W J → VaultStore → W → Op → Answer × W
run_vault net v w (puts ref values) = let (b, w1) = vault_put net v w ref values in (done b, w1)
run_vault net v w (gets ref) = let (g, w1) = vault_get net v w ref in (answer_of g, w1)
run_vault net v w (deletes ref) = let (b, w1) = vault_delete net v w ref in (done b, w1)

unfoldable pub run_mem : Dict (Dict Text) → Op → Answer × Dict (Dict Text)
unfolding mem_store
run_mem m (puts ref values) = let (b, m1) = mem_store.put m ref values in (done b, m1)
run_mem m (gets ref) = (value (mem_store.get m ref), m)
run_mem m (deletes ref) = let (b, m1) = mem_store.delete m ref in (done b, m1)

unfoldable pub answers_vault : {W J : Type 0} → Network W J → VaultStore → W → List Op → List Answer
unfolding run_vault
answers_vault net v w [] = []
answers_vault net v w (o ∷ os) =
    (run_vault net v w o).0 ∷ answers_vault net v (run_vault net v w o).1 os

unfoldable pub answers_mem : Dict (Dict Text) → List Op → List Answer
unfolding run_mem
answers_mem m [] = []
answers_mem m (o ∷ os) = (run_mem m o).0 ∷ answers_mem (run_mem m o).1 os

module _ {W J : Type 0} (net : Network W J) (v : VaultStore) (holds : W → Text → Option (Dict Text))
    (laws : Engine net v holds) where
  abbrev Same : W → Dict (Dict Text) → Type 0
  Same w m = (ref : Text) → is_plain ref ≡ true → holds w ref ≡ lookup ref m

  abbrev Agree : Answer × W → Answer × Dict (Dict Text) → Type 0
  Agree r q = (r.0 ≡ q.0) × Same r.1 q.1

  put-Agree :
      (w : W) (m : Dict (Dict Text)) (ref : Text) (values : Dict Text)
      → is_plain ref ≡ true
      → Same w m
      → Agree (run_vault net v w (puts ref values)) (run_mem m (puts ref values))
  unfolding run_vault run_mem vault_put
  put-Agree w m ref values p s =
      let ((r, e, n), f) = laws.posted w ref values p in
      (
        rw (e, n) refl,
        λ j pj.
            f j pj
            ∙ (ap (λ (o : Option (Dict Text)). if text_beq ref j then some values else o) (s j pj)
                ∙ sym (lookup-insert ref j values m)),
      )

  get-Agree :
      (w : W) (m : Dict (Dict Text)) (ref : Text)
      → is_plain ref ≡ true
      → Same w m
      → Agree (run_vault net v w (gets ref)) (run_mem m (gets ref))
  unfolding run_vault run_mem vault_get
  get-Agree w m ref p s = elim (Option-cases (holds w ref)) [
    | inl x ↦
        let ((r, e, n), f) = laws.absent w ref p x in
        (rw (e, n) (ap value (sym x ∙ s ref p)), λ j pj. f j pj ∙ s j pj)
    | inr (values, x) ↦
        let ((r, e, n, d), f) = laws.got w ref values p x in
        (rw (e, n, d) (ap value (sym x ∙ s ref p)), λ j pj. f j pj ∙ s j pj)
  ]

  delete-Agree :
      (w : W) (m : Dict (Dict Text)) (ref : Text)
      → is_plain ref ≡ true
      → Same w m
      → Agree (run_vault net v w (deletes ref)) (run_mem m (deletes ref))
  unfolding run_vault run_mem vault_delete
  delete-Agree w m ref p s =
      let ((r, e, n), f) = laws.removed w ref p in
      (
        rw (e, n) refl,
        λ j pj.
            f j pj
            ∙ (ap (λ (o : Option (Dict Text)). if text_beq ref j then none else o) (s j pj)
                ∙ sym (lookup-erase ref j m)),
      )

  step-Agree :
      (w : W) (m : Dict (Dict Text)) (o : Op)
      → is_plain (ref_of o) ≡ true
      → Same w m
      → Agree (run_vault net v w o) (run_mem m o)
  step-Agree w m (puts ref values) p s = put-Agree w m ref values p s
  step-Agree w m (gets ref) p s = get-Agree w m ref p s
  step-Agree w m (deletes ref) p s = delete-Agree w m ref p s

  -- Any sequence of calls with plain references is answered by Vault as by the store in memory, if the
  -- two hold the same secrets at first, while Vault answers as it documents. A reference is plain if it
  -- is segments of letters, digits, '-' and '_', with a slash between two.
  pub answers_vault-mem :
      (w : W) (m : Dict (Dict Text)) (os : List Op)
      → All (λ o. is_plain (ref_of o) ≡ true) os
      → ((ref : Text) → is_plain ref ≡ true → holds w ref ≡ lookup ref m)
      → answers_vault net v w os ≡ answers_mem m os
  unfolding answers_vault answers_mem
  answers_vault-mem w m [] p s = refl
  answers_vault-mem w m (o ∷ os) p s =
      let (a, t) = step-Agree w m o p.0 s in
      let rest = answers_vault-mem (run_vault net v w o).1 (run_mem m o).1 os p.1 t in cc
