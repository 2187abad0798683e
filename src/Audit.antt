-- ===== src/Audit.antt =====
-- pkg/audit/audit.go: the hash-chained log. Times are nanoseconds since Go's zero time, so `IsZero`
-- is a comparison with 0; `sha256` with its hex form and `UnixNano` with `%d` are the fields of
-- `Digest`. Records stand oldest first, as in `MemLogger.records`.
pub mod Archive
pub mod Keys
mod Sorting
mod Objects
mod Recovery
mod Restarts
mod Contents
mod Chain
mod Records
mod Tests
use mcp_gateway_w.Prelude.{
  ℕ, zero, suc, ◌+◌, ◌-◌, ◌/◌, ◌%◌, Bool, true, false, not, ◌&&◌, ◌||◌, List, [], ◌∷◌, ◌++◌, Text,
  lit, text_beq, ltb, leb, nat_beq, length, if◌then◌else◌,
}
use mcp_gateway_w.Prelude.Dict.{Dict}

pub record Event : Type 0 where
  pub time : ℕ
  pub org_id : Text
  pub actor : Text
  pub action : Text
  pub target : Text
  pub metadata : Dict Text

pub record Record : Type 0 where
  pub event : Event
  pub seq : ℕ
  pub prev_hash : Text
  pub hash : Text

pub record Digest : Type 0 where
  pub sum : Text → Text
  pub unix_nano : ℕ → Text

-- `%d`. A number has fewer digits than its size and one, which is the fuel.
unfoldable pub digits : ℕ → ℕ → Text
digits zero n = []
digits (suc fuel) n =
    let rest = digits fuel (n / 10) in
    if ltb n 10 then (48 + n) ∷ [] else rest ++ (48 + n % 10) ∷ []

unfoldable pub decimal : ℕ → Text
unfolding digits
decimal n = digits (suc n) n

abbrev pub newline : ℕ
newline = 10

-- `sort.Strings` on the keys, each with its value.
unfoldable pub text_leb : Text → Text → Bool
text_leb [] t = true
text_leb (a ∷ s) [] = false
text_leb (a ∷ s) (b ∷ t) = ltb a b || (nat_beq a b && text_leb s t)

unfoldable pub insert_key : (Text × Text) → Dict Text → Dict Text
unfolding text_leb
insert_key kv [] = kv ∷ []
insert_key kv (e ∷ m) = if text_leb kv.0 e.0 then kv ∷ e ∷ m else e ∷ insert_key kv m

unfoldable pub sort_keys : Dict Text → Dict Text
unfolding insert_key
sort_keys [] = []
sort_keys (e ∷ m) = insert_key e (sort_keys m)

unfoldable pub print_metadata : Dict Text → Text
print_metadata [] = []
print_metadata ((k, v) ∷ m) = k ++ (61 ∷ v ++ (newline ∷ print_metadata m))

-- What `hashRecord` writes to the hash.
unfoldable pub preimage : Digest → Record → Text
unfolding decimal sort_keys print_metadata
preimage d r =
    decimal r.seq
    ++ (newline ∷ r.prev_hash
        ++ (newline ∷ r.event.org_id
            ++ (newline ∷ r.event.actor
                ++ (newline ∷ r.event.action
                    ++ (newline ∷ r.event.target
                        ++ (newline ∷ d.unix_nano r.event.time
                            ++ (newline ∷ print_metadata (sort_keys r.event.metadata))))))))

unfoldable pub hash_record : Digest → Record → Text
unfolding preimage
hash_record d r = d.sum (preimage d r)

-- The hash of the newest record, or the empty string.
unfoldable pub last_hash : Text → List Record → Text
last_hash prev [] = prev
last_hash prev (r ∷ rs) = last_hash r.hash rs

-- The new record; `now` is the logger's clock.
unfoldable pub seal : Digest → ℕ → List Record → Event → Record
unfolding hash_record last_hash
seal d now rs e =
    let e : Event = record e { time = if nat_beq e.time 0 then now else e.time } in
    let r : Record = record {
      event = e;
      seq = length rs + 1;
      prev_hash = last_hash [] rs;
      hash = [];
    } in
    record r { hash = hash_record d r }

unfoldable pub append_record : Digest → ℕ → List Record → Event → List Record
unfolding seal
append_record d now rs e = rs ++ seal d now rs e ∷ []

-- The loop of `List`, from the newest record, with what it has taken; a limit of 0 stands for every
-- limit that is not positive.
unfoldable pub list_from : Text → ℕ → ℕ → List Record → List Record
list_from org limit taken [] = []
list_from org limit taken (r ∷ rs) =
    let more = list_from org limit taken rs in
    let rest = list_from org limit (taken + 1) rs in
    if not (text_beq r.event.org_id org)
    then more
    else r ∷ (if ltb 0 limit && leb limit (taken + 1) then [] else rest)

unfoldable pub newest_first : List Record → List Record
newest_first [] = []
newest_first (r ∷ rs) = newest_first rs ++ r ∷ []

unfoldable pub list_records : Text → ℕ → List Record → List Record
unfolding list_from newest_first
list_records org limit rs = list_from org limit 0 (newest_first rs)

-- The loop of `Verify`.
unfoldable pub verify_from : Digest → Text → List Record → Bool
unfolding hash_record
verify_from d prev [] = true
verify_from d prev (r ∷ rs) =
    let rest = verify_from d r.hash rs in
    if not (text_beq r.prev_hash prev) || not (text_beq r.hash (hash_record d r))
    then false
    else rest

unfoldable pub verify : Digest → List Record → Bool
unfolding verify_from
verify d rs = verify_from d [] rs
