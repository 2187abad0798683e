-- ===== src/Audit/Tests.antt =====
-- audit.go: runs on a small log, and the theorems at concrete logs.
use mcp_gateway_w.Prelude.{◌+◌, ◌≡◌, refl, List, [], ◌∷◌, map, Text, lit, text_beq}
use mcp_gateway_w.Audit.{
  Event, Record, Digest, digits, decimal, text_leb, insert_key, sort_keys, print_metadata, preimage,
  hash_record, last_hash, seal, append_record, list_from, newest_first, list_records, verify_from,
  verify,
}
use mcp_gateway_w.Audit.Records.{of_org, first}

runs : Unit {0}
unfolding digits decimal text_leb insert_key sort_keys print_metadata preimage hash_record last_hash
    seal append_record list_from newest_first list_records verify_from verify of_org first text_beq
runs = tt

-- In place of SHA-256 a digest that moves every byte above the newline.
abbrev shift : Text → Text
shift = map (λ b. b + 11)

abbrev digest : Digest
digest = record { sum = shift; unix_nano = λ t. decimal t }

abbrev event : Text → Text → Event
event org action = record {
  time = 0;
  org_id = org;
  actor = lit "ann";
  action = action;
  target = lit "t";
  metadata = (lit "z", lit "1") ∷ (lit "a", lit "2") ∷ [];
}

abbrev log_1 : List Record
log_1 = append_record digest 5 [] (event (lit "acme") (lit "tenant.suspend"))

abbrev log_2 : List Record
log_2 = append_record digest 6 log_1 (event (lit "other") (lit "tenant.resume"))

sorted :
    sort_keys ((lit "z", lit "1") ∷ (lit "a", lit "2") ∷ [])
    ≡ (lit "a", lit "2") ∷ (lit "z", lit "1") ∷ []
unfolding runs
sorted = refl

own_only : list_records (lit "acme") 0 log_2 ≡ log_1
unfolding runs
own_only = refl

abbrev blank : Record
blank = record { event = event [] []; seq = 1; prev_hash = []; hash = [] }
