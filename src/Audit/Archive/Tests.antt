-- ===== src/Audit/Archive/Tests.antt =====
-- The archive on a small object store, whose documents are the records.
use mcp_gateway_w.Prelude.{
  ◌≡◌, refl, sym, ap, true, List, [], ◌∷◌, ◌++◌, Option, some, Text, lit, Bool, text_beq,
  if◌then◌else◌, arith, pos,
}
use mcp_gateway_w.Prelude.Dict.{Dict, lookup}
use mcp_gateway_w.Audit.{Event, Record, Digest, digits, decimal, append_record, last_hash}
use mcp_gateway_w.Audit.Archive.{
  Bucket, Archive, key_for_seq, seq_from_key, tip_from, record_event, load_tip, read_objects,
  sort_by_seq,
}
use mcp_gateway_w.Audit.Recovery.{Documented, Holds, record_event-Holds}
use mcp_gateway_w.Audit.Restarts.{Op, records, restarts}

abbrev keys : Dict Record → List (Option Text)
keys [] = []
keys ((k, r) ∷ w) = some k ∷ keys w

-- The newest object is listed first.
abbrev store : Bucket (Dict Record) Record
store = record {
  bucket_exists = λ w. some true;
  make_bucket = λ w. (true, w);
  list_objects = keys;
  get_object = λ w key. lookup key w;
  put_object = λ w key r until. (true, (key, r) ∷ w);
  encode = λ r. r;
  decode = λ r. some r;
}

pair-injective : {a c : Dict Record} → ◌≡◌ {A = Bool × Dict Record} (true, a) (true, c) → a ≡ c
pair-injective e = ap (λ (p : Bool × Dict Record). p.1) e

store-stored :
    (w w1 : Dict Record) (key : Text) (r : Record)
    → (key, r) ∷ w ≡ w1
    → (ks : List (Option Text)) × (ls : List (Option Text)) × (keys w ≡ ks ++ ls)
      × (keys w1 ≡ ks ++ some key ∷ ls)
      × ((j : Text) → lookup j w1 ≡ (if text_beq key j then some r else lookup j w))
unfolding lookup
store-stored w w1 key r e = ([], keys w, refl, ap keys (sym e), λ j. ap (lookup j) (sym e))

store-Documented : Documented store
store-Documented = record {
  decoded = λ r. refl;
  stored = λ w w1 key r until e h. store-stored w w1 key r (pair-injective e);
}

abbrev digest : Digest
digest = record { sum = λ s. s; unix_nano = λ t. decimal t }

abbrev event : Event
event = record {
  time = 7;
  org_id = lit "acme";
  actor = lit "ann";
  action = lit "server.create";
  target = lit "s1";
  metadata = [];
}

abbrev empty : Archive
empty = record { retention = pos 5; seq = 0; last_hash = [] }

empty-Holds : Holds store [] [] empty
unfolding load_tip sort_by_seq tip_from last_hash read_objects
empty-Holds = record {
  small = omega arith;
  seq = refl;
  hash = refl;
  keys = tt;
  objects = [];
  read = refl;
  low = tt;
  sorted = refl;
  tip = refl;
}

key_of_12 : key_for_seq 12 ≡ lit "audit/00000000000000000012.json"
unfolding key_for_seq digits
key_of_12 = refl

foreign : seq_from_key (lit "audit/readme.txt") ≡ pos 0
unfolding seq_from_key text_beq
foreign = refl

abbrev once : Archive × Dict Record
once = let r = record_event store digest 1 2 empty [] event in (r.1, r.2)

once-Holds : Holds store once.1 (append_record digest 1 [] event) once.0
unfolding record_event
once-Holds =
    record_event-Holds store store-Documented digest 1 2 [] once.1 [] empty once.0 event empty-Holds
      (omega arith) refl

-- A second writer takes over after the first event.
abbrev twice : List Op
twice = records 1 2 event ∷ restarts ∷ records 3 4 event ∷ []

abbrev first_stored : Dict Record
first_stored = (record_event store digest 1 2 empty [] event).2

abbrev second : Archive × Dict Record
second = let r = record_event store digest 3 4 once.0 first_stored event in (r.1, r.2)
