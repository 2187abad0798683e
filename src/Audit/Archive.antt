-- ===== src/Audit/Archive.antt =====
-- pkg/audit/s3.go: the archive of the log in an object store, which `Bucket` stands for, over its
-- states: a listing is of keys, or of errors as `none`, in any order, and the objects are documents of
-- a type `J` with JSON's encoding and decoding. A call of `Record` takes the two times that its clock answers.
mod Tests
use mcp_gateway_w.Prelude.{
  ℕ, zero, suc, ◌+◌, ◌-◌, ◌*◌, ◌^◌, Bool, true, false, not, ◌&&◌, ◌||◌, List, [], ◌∷◌, ◌++◌, Option,
  none, some, Text, lit, text_beq, ltb, leb, nat_beq, below, length, if◌then◌else◌, ℤ, pos, negsuc,
  pos_part, is_empty,
}
use mcp_gateway_w.Authz.{without_suffix}
use mcp_gateway_w.Audit.{
  Event, Record, Digest, decimal, hash_record, list_from, newest_first, verify_from,
}

pub record Bucket (W J : Type 0) : Type 0 where
  pub bucket_exists : W → Option Bool
  pub make_bucket : W → Bool × W
  pub list_objects : W → List (Option Text)
  pub get_object : W → Text → Option J
  -- The last argument is until when the object is retained.
  pub put_object : W → Text → J → Option ℕ → Bool × W
  pub encode : Record → J
  pub decode : J → Option Record

pub record Archive : Type 0 where
  pub retention : ℤ
  pub seq : ℕ
  pub last_hash : Text

abbrev pub audit_prefix : Text
audit_prefix = lit "audit/"

unfoldable pub zeros : ℕ → Text
zeros zero = []
zeros (suc n) = b'0' ∷ zeros n

-- `%020d`.
unfoldable pub padded : ℕ → Text
unfolding zeros decimal
padded n = zeros (20 - length (decimal n)) ++ decimal n

unfoldable pub key_for_seq : ℕ → Text
unfolding padded
key_for_seq seq = audit_prefix ++ (padded seq ++ lit ".json")

unfoldable pub trim_prefix : Text → Text → Text → Text
trim_prefix whole [] s = s
trim_prefix whole (a ∷ p) [] = whole
trim_prefix whole (a ∷ p) (b ∷ s) =
    let rest = trim_prefix whole p s in if nat_beq a b then rest else whole

unfoldable pub trim_suffix : Text → Text → Text
unfolding without_suffix
trim_suffix suffix s = elim (without_suffix suffix s) [ none ↦ s | some t ↦ t ]

abbrev is_digit : ℕ → Bool
is_digit b = leb b'0' b && leb b b'9'

unfoldable pub parse_digits : ℕ → Text → Option ℕ
parse_digits acc [] = some acc
parse_digits acc (b ∷ s) =
    let rest = parse_digits (acc * 10 + (b - 48)) s in if is_digit b then rest else none

abbrev in_range : Option ℕ → Option ℤ
in_range none = none
in_range (some n) = if ltb n (2 ^ 63) then some (pos n) else none

abbrev negated : Option ℕ → Option ℤ
negated none = none
negated (some zero) = some (pos 0)
negated (some (suc n)) = if ltb n (2 ^ 63) then some (negsuc n) else none

abbrev unsigned : Text → Option ℕ
unsigned [] = none
unsigned (b ∷ s) = parse_digits 0 (b ∷ s)

-- `strconv.ParseInt(s, 10, 64)`.
unfoldable pub parse_int : Text → Option ℤ
unfolding parse_digits
parse_int [] = none
parse_int (b ∷ s) =
    if nat_beq b b'+'
    then in_range (unsigned s)
    else if nat_beq b b'-'
    then negated (unsigned s)
    else in_range (unsigned (b ∷ s))

unfoldable pub seq_from_key : Text → ℤ
unfolding trim_prefix trim_suffix parse_int
seq_from_key key = elim (parse_int (trim_suffix (lit ".json") (trim_prefix key audit_prefix key))) [
  | none ↦ pos 0
  | some n ↦ n
]

-- The loop of `loadTip`, with the greatest number so far and its key; `none` is an error.
unfoldable pub tip_from : ℕ → Text → List (Option Text) → Option (ℕ × Text)
unfolding seq_from_key
tip_from max_seq tip_key [] = some (max_seq, tip_key)
tip_from max_seq tip_key (none ∷ ks) = none
tip_from max_seq tip_key (some k ∷ ks) =
    let s = seq_from_key k in
    let higher = tip_from (pos_part s) k ks in
    let same = tip_from max_seq tip_key ks in if below max_seq s then higher else same

unfoldable pub insert_by_seq : Record → List Record → List Record
insert_by_seq r [] = r ∷ []
insert_by_seq r (q ∷ qs) =
    let rest = insert_by_seq r qs in if leb r.seq q.seq then r ∷ q ∷ qs else q ∷ rest

unfoldable pub sort_by_seq : List Record → List Record
unfolding insert_by_seq
sort_by_seq [] = []
sort_by_seq (r ∷ rs) = insert_by_seq r (sort_by_seq rs)

-- The record that `Record` seals.
unfoldable pub sealed : Digest → Archive → ℕ → Event → Record
unfolding hash_record
sealed d a now e =
    let e : Event = record e { time = if nat_beq e.time 0 then now else e.time } in
    let r : Record = record { event = e; seq = a.seq + 1; prev_hash = a.last_hash; hash = [] } in
    record r { hash = hash_record d r }

module _ {W J : Type 0} (b : Bucket W J) where
  unfoldable pub get_record : W → Text → Option Record
  get_record w key = elim (b.get_object w key) [ none ↦ none | some s ↦ b.decode s ]

  -- An answer of false is an error.
  unfoldable pub ensure_bucket : W → Bool × W
  ensure_bucket w = elim (b.bucket_exists w) [
    | none ↦ (false, w)
    | some true ↦ (true, w)
    | some false ↦ b.make_bucket w
  ]

  abbrev pub tip_of : W → Archive → ℕ × Text → Option Archive
  tip_of w a (n, []) = some (record a { seq = n })
  tip_of w a (n, k ∷ key) = elim (get_record w (k ∷ key)) [
    | none ↦ none
    | some r ↦ some (record a { seq = n; last_hash = r.hash })
  ]

  unfoldable pub load_tip : W → Archive → Option Archive
  unfolding tip_from get_record
  load_tip w a = elim (tip_from 0 [] (b.list_objects w)) [ none ↦ none | some t ↦ tip_of w a t ]

  unfoldable pub new_s3_archive : W → ℤ → Option Archive × W
  unfolding ensure_bucket load_tip
  new_s3_archive w retention =
      let (found, w1) = ensure_bucket w in
      if found
      then (load_tip w1 (record { retention = retention; seq = 0; last_hash = [] }), w1)
      else (none, w1)

  unfoldable pub record_event : Digest → ℕ → ℕ → Archive → W → Event → Bool × Archive × W
  unfolding sealed key_for_seq
  record_event d now now' a w e =
      let r = sealed d a now e in
      let until = if below 0 a.retention then some (now' + pos_part a.retention) else none in
      let (stored, w1) = b.put_object w (key_for_seq r.seq) (b.encode r) until in
      if stored then (true, record a { seq = r.seq; last_hash = r.hash }, w1) else (false, a, w1)

  -- The loop of `all`.
  unfoldable pub read_objects : W → List (Option Text) → Option (List Record)
  unfolding get_record
  read_objects w [] = some []
  read_objects w (none ∷ ks) = none
  read_objects w (some k ∷ ks) =
      let rest = read_objects w ks in
      elim (get_record w k) [
        | none ↦ none
        | some r ↦ elim rest [ none ↦ none | some rs ↦ some (r ∷ rs) ]
      ]

  unfoldable pub all_records : W → Option (List Record)
  unfolding read_objects sort_by_seq
  all_records w = elim (read_objects w (b.list_objects w)) [
    | none ↦ none
    | some rs ↦ some (sort_by_seq rs)
  ]

  unfoldable pub list_archived : W → Text → ℕ → Option (List Record)
  unfolding all_records list_from newest_first
  list_archived w org limit = elim (all_records w) [
    | none ↦ none
    | some rs ↦ some (list_from org limit 0 (newest_first rs))
  ]

  unfoldable pub verify_archived : Digest → W → Option Bool
  unfolding all_records verify_from
  verify_archived d w = elim (all_records w) [ none ↦ none | some rs ↦ some (verify_from d [] rs) ]
