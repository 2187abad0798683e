-- ===== src/Admin/Stored.antt =====
-- store.go: the well-formedness of the in-memory store, and that its operations keep it.
use mcp_gateway_w.Prelude.{
  ℕ, zero, suc, ◌+◌, ◌-◌, ◌*◌, ◌/◌, ◌%◌, ◌≤◌, ◌<◌, ◌≡◌, refl, sym, subst, inl, inr, true,
  Bool-cases, Option-cases, [], ◌∷◌, ◌++◌, none, some, Text, text_beq, text_eq_iff, eq_refl, ltb,
  Lacks, append-sep-injective, arith,
}
use mcp_gateway_w.Prelude.Dict.{
  Dict, lookup, insert, erase, lookup-insert, lookup-erase, Distinct, insert-Distinct,
  erase-Distinct,
}
use mcp_gateway_w.Audit.{digits, decimal}
use mcp_gateway_w.Admin.{Server, Store, store_key, server_id, slug_taken, create_server}

-- The number that digits stand for.
value : ℕ → Text → ℕ
value acc [] = acc
value acc (b ∷ s) = value (acc * 10 + (b - 48)) s

value-append : (acc : ℕ) (s : Text) (b : ℕ) → value acc (s ++ b ∷ []) ≡ value acc s * 10 + (b - 48)
unfolding value
value-append acc [] b = refl
value-append acc (a ∷ s) b = value-append (acc * 10 + (a - 48)) s b

value-digits : (fuel n : ℕ) → n < fuel → value 0 (digits fuel n) ≡ n
unfolding value digits
value-digits zero n h = ground arith
value-digits (suc fuel) n h = elim (Bool-cases (ltb n 10)) [
  | inl e ↦ rw e (ground arith)
  | inr e ↦ rw e (
      ground
        (arith, value-append 0 (digits fuel (n / 10)) (48 + n % 10), value-digits fuel (n / 10)))
]

server_id-injective : (m n : ℕ) → server_id m ≡ server_id n → m ≡ n
unfolding server_id decimal
server_id-injective m n e = ground (arith, value-digits (suc m) m, value-digits (suc n) n)

pub record IsEntry (seq : ℕ) (k : Text) (s : Server) : Type 0 where
  pub key : k ≡ store_key s.org_id s.id
  pub org : Lacks b'/' s.org_id
  pub number : ℕ
  pub issued : number ≤ seq
  pub id : s.id ≡ server_id number

-- Every server stands under its key, with an identity that was issued, and no two servers of an
-- organization have one slug.
pub record IsStored (m : Store) : Type 0 where
  pub entry : (k : Text) (s : Server) → lookup k m.by_id ≡ some s → IsEntry m.seq k s
  pub unique :
      (k j : Text) (s t : Server)
      → lookup k m.by_id ≡ some s
      → lookup j m.by_id ≡ some t
      → s.org_id ≡ t.org_id
      → s.slug ≡ t.slug
      → k ≡ j
  pub distinct : Distinct m.by_id

pub store_key-injective :
    (org org' id id' : Text)
    → Lacks b'/' org
    → Lacks b'/' org'
    → store_key org id ≡ store_key org' id'
    → (org ≡ org') × (id ≡ id')
unfolding store_key
store_key-injective org org' id id' l l' e = append-sep-injective b'/' org org' id id' l l' e

IsEntry-same :
    (seq : ℕ) (k : Text) (old s : Server)
    → s.org_id ≡ old.org_id
    → s.id ≡ old.id
    → IsEntry seq k old
    → IsEntry seq k s
IsEntry-same seq k old s p q e = record {
  key = cc (e.key);
  org = subst (Lacks b'/') (sym p) e.org;
  number = e.number;
  issued = e.issued;
  id = cc (e.id);
}

-- A server is replaced by one with its organization, identity and slug.
pub IsStored-insert :
    (m : Store) (k : Text) (old s : Server)
    → IsStored m
    → lookup k m.by_id ≡ some old
    → s.org_id ≡ old.org_id
    → s.id ≡ old.id
    → s.slug ≡ old.slug
    → IsStored (record m { by_id = insert k s m.by_id })
IsStored-insert m k old s w found p q r = record {
  entry = λ j t e. elim (Bool-cases (text_beq k j)) [
    | inl b ↦
        subst (λ t. IsEntry m.seq j t) (ground (arith, b, lookup-insert k j s m.by_id))
          (IsEntry-same m.seq j old s p q
            (w.entry j old (ground (arith, b, text_eq_iff k j, found))))
    | inr b ↦ w.entry j t (ground (arith, b, lookup-insert k j s m.by_id))
  ];
  unique = λ i j t u e f o g. ground (
    arith,
    text_eq_iff k i,
    text_eq_iff k j,
    lookup-insert k i s m.by_id,
    lookup-insert k j s m.by_id,
    w.unique i j t u,
    w.unique k j old u,
    w.unique i k t old,
  );
  distinct = insert-Distinct k s m.by_id w.distinct;
}

pub IsStored-erase :
    (m : Store) (k : Text) → IsStored m → IsStored (record m { by_id = erase k m.by_id })
IsStored-erase m k w = record {
  entry = λ j t e. w.entry j t (ground (arith, lookup-erase k j m.by_id));
  unique = λ i j t u e f.
      w.unique i j t u (ground (arith, lookup-erase k i m.by_id))
        (ground (arith, lookup-erase k j m.by_id));
  distinct = erase-Distinct k m.by_id w.distinct;
}

slug_taken-lookup :
    (m : Dict Server) (k : Text) (s : Server)
    → lookup k m ≡ some s
    → slug_taken m s.org_id s.slug ≡ true
unfolding slug_taken lookup
slug_taken-lookup [] k s e = ground arith
slug_taken-lookup ((j, t) ∷ m) k s e =
    ground (arith, slug_taken-lookup m k s, eq_refl s.org_id, eq_refl s.slug)

-- The key of the next server is free.
pub lookup-next :
    (m : Store) (org : Text)
    → IsStored m
    → Lacks b'/' org
    → lookup (store_key org (server_id (suc m.seq))) m.by_id ≡ none
lookup-next m org w l =
    elim (Option-cases (lookup (store_key org (server_id (suc m.seq))) m.by_id)) [
      | inl e ↦ e
      | inr (t, e) ↦
          let n = w.entry (store_key org (server_id (suc m.seq))) t e in
          let same =
            store_key-injective org t.org_id (server_id (suc m.seq)) t.id l n.org (n.key) in
          ground (arith, n.issued, n.id, same, server_id-injective (suc m.seq) n.number)
    ]

pub IsStored-create_server :
    (m : Store) (s : Server) → IsStored m → Lacks b'/' s.org_id → IsStored (create_server m s).1
unfolding create_server
IsStored-create_server m s w l = elim (Bool-cases (slug_taken m.by_id s.org_id s.slug)) [
  | inl b ↦ rw b (w)
  | inr b ↦
      let s1 : Server = record s { id = server_id (suc m.seq) } in
      let k = store_key s.org_id (server_id (suc m.seq)) in
      rw b (record {
        entry = λ j t e. elim (Bool-cases (text_beq k j)) [
          | inl c ↦
              subst (λ t. IsEntry (suc m.seq) j t) {x = s1}
                (ground (arith, c, lookup-insert k j s1 m.by_id))
                (record {
                  key = ground (arith, c, text_eq_iff k j);
                  org = l;
                  number = suc m.seq;
                  issued = omega arith;
                  id = refl;
                })
          | inr c ↦
              let n = w.entry j t (ground (arith, c, lookup-insert k j s1 m.by_id)) in
              record {
                key = n.key;
                org = n.org;
                number = n.number;
                issued = omega (arith, n.issued);
                id = n.id;
              }
        ];
        unique = λ i j t u e f o g. ground (
          arith,
          text_eq_iff k i,
          text_eq_iff k j,
          lookup-insert k i s1 m.by_id,
          lookup-insert k j s1 m.by_id,
          w.unique i j t u,
          slug_taken-lookup m.by_id i t,
          slug_taken-lookup m.by_id j u,
        );
        distinct = insert-Distinct k s1 m.by_id w.distinct;
      })
]
