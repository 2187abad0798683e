-- ===== src/Secrets/Vault/Tests.antt =====
-- A small Vault, whose documents are the secrets.
use mcp_gateway_w.Prelude.{
  ◌≡◌, refl, ap, true, false, All, List, [], ◌∷◌, Option, none, some, Text, lit, text_beq, drop,
  if◌then◌else◌,
}
use mcp_gateway_w.Prelude.Dict.{Dict, lookup, insert, erase, lookup-insert, lookup-erase}
use mcp_gateway_w.Secrets.Vault.{
  Request, Exchanged, answer, Network, VaultStore, new_vault_store, data_url, metadata_url,
  vault_do,
}
use mcp_gateway_w.Secrets.Vault.Simulation.{
  is_plain, ref_of, Engine, Op, puts, gets, deletes, answers_vault, answers_mem, answers_vault-mem,
}

abbrev vault : VaultStore
vault = record { addr = lit "http://v"; token = lit "t"; mount = lit "secret" }

abbrev values_of : Option (Dict Text) → Dict Text
values_of none = []
values_of (some values) = values

abbrev got : Option (Dict Text) → Exchanged (Dict Text)
got none = answer (record { status = 404; body = [] })
got (some values) = answer (record { status = 200; body = values })

abbrev done : Exchanged (Dict Text)
done = answer (record { status = 204; body = [] })

abbrev exchange : Dict (Dict Text) → Request → Exchanged (Dict Text) × Dict (Dict Text)
exchange w r =
    if text_beq r.method (lit "POST")
    then (done, insert (drop 24 r.url) (values_of r.body) w)
    else if text_beq r.method (lit "DELETE")
    then (done, erase (drop 28 r.url) w)
    else (got (lookup (drop 24 r.url) w), w)

abbrev net : Network (Dict (Dict Text)) (Dict Text)
net = record { exchange = exchange; decode = λ values. some values }

abbrev holds : Dict (Dict Text) → Text → Option (Dict Text)
holds w ref = lookup ref w

net-Engine : Engine net vault holds
unfolding vault_do data_url metadata_url text_beq drop
net-Engine = record {
  posted = λ w ref values p.
      ((record { status = 204; body = [] }, refl, refl), λ j q. lookup-insert ref j values w);
  got = λ w ref values p h.
      ((record { status = 200; body = values }, ap got h, refl, refl), λ j q. refl);
  absent = λ w ref p h. ((record { status = 404; body = [] }, ap got h, refl), λ j q. refl);
  removed =
      λ w ref p. ((record { status = 204; body = [] }, refl, refl), λ j q. lookup-erase ref j w);
}

abbrev ops : List Op
ops =
    puts (lit "org/a/server/s") ((lit "token", lit "x") ∷ [])
    ∷ gets (lit "org/a/server/s")
    ∷ deletes (lit "org/a/server/s")
    ∷ gets (lit "org/a/server/s")
    ∷ []

mounted :
    data_url (new_vault_store (lit "http://v") (lit "t")) (lit "r")
    ≡ lit "http://v/v1/secret/data/r"
unfolding data_url new_vault_store
mounted = refl

ops-plain : All (λ o. is_plain (ref_of o) ≡ true) ops
unfolding is_plain
ops-plain = (refl, (refl, (refl, (refl, tt))))

unplain :
    (is_plain (lit "org/a?version=1") ≡ false)
    × (is_plain (lit "org//a") ≡ false)
    × (is_plain (lit "org/..") ≡ false)
unfolding is_plain
unplain = (refl, refl, refl)

answers_vault-mem_example : answers_vault net vault [] ops ≡ answers_mem [] ops
answers_vault-mem_example =
    answers_vault-mem net vault holds net-Engine [] [] ops ops-plain (λ ref p. refl)
