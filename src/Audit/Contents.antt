-- ===== src/Audit/Contents.antt =====
-- audit.go: what the text that `hashRecord` hashes says of the record.
use mcp_gateway_w.Prelude.{
  ℕ, ◌≡◌, ◌≢◌, refl, sym, inl, inr, Bool-cases, [], ◌∷◌, ◌++◌, Text, All, Lacks,
  append-sep-injective,
}
use mcp_gateway_w.Prelude.Dict.{Dict}
use mcp_gateway_w.Audit.{
  Record, Digest, newline, text_leb, insert_key, sort_keys, print_metadata, preimage,
}
use mcp_gateway_w.Audit.Keys.{decimal-injective, decimal-Lacks}

abbrev equals : ℕ
equals = 61

-- Keys with no equals sign and values with no newline.
abbrev pub PlainEntries : Dict Text → Type 0
PlainEntries m = All (λ kv. Lacks equals kv.0 × Lacks newline kv.1) m

-- No field of the record can run into the next.
pub record IsPlain (r : Record) : Type 0 where
  pub org_id : Lacks newline r.event.org_id
  pub actor : Lacks newline r.event.actor
  pub action : Lacks newline r.event.action
  pub target : Lacks newline r.event.target
  pub metadata : PlainEntries r.event.metadata

-- Times are printed in one line, and different ones differently.
pub record IsPrinter (d : Digest) : Type 0 where
  pub clean : (t : ℕ) → Lacks newline (d.unix_nano t)
  pub injective : (t u : ℕ) → d.unix_nano t ≡ d.unix_nano u → t ≡ u

-- The same number and the same event, up to the order of the metadata's entries.
abbrev pub SameContents : Record → Record → Type 0
SameContents r q =
    (r.seq ≡ q.seq)
    × (r.event.org_id ≡ q.event.org_id)
    × (r.event.actor ≡ q.event.actor)
    × (r.event.action ≡ q.event.action)
    × (r.event.target ≡ q.event.target)
    × (r.event.time ≡ q.event.time)
    × (sort_keys r.event.metadata ≡ sort_keys q.event.metadata)

insert_key-PlainEntries :
    (k v : Text) (m : Dict Text)
    → Lacks equals k
    → Lacks newline v
    → PlainEntries m
    → PlainEntries (insert_key (k, v) m)
unfolding insert_key
insert_key-PlainEntries k v [] a b h = ((a, b), tt)
insert_key-PlainEntries k v ((j, u) ∷ m) a b h = elim (Bool-cases (text_leb k j)) [
  | inl x ↦ rw x ((a, b), h)
  | inr x ↦ rw x (h.0, insert_key-PlainEntries k v m a b h.1)
]

sort_keys-PlainEntries : (m : Dict Text) → PlainEntries m → PlainEntries (sort_keys m)
unfolding sort_keys
sort_keys-PlainEntries [] h = tt
sort_keys-PlainEntries ((k, v) ∷ m) h =
    insert_key-PlainEntries k v (sort_keys m) h.0.0 h.0.1 (sort_keys-PlainEntries m h.1)

append_nonempty : (s t : Text) (b : ℕ) → s ++ b ∷ t ≢ []
append_nonempty [] t b e = cc
append_nonempty (a ∷ s) t b e = cc

print_metadata-injective :
    (m n : Dict Text)
    → PlainEntries m
    → PlainEntries n
    → print_metadata m ≡ print_metadata n
    → m ≡ n
unfolding print_metadata
print_metadata-injective [] [] h k e = refl
print_metadata-injective [] ((j, u) ∷ n) h k e = absurd (append_nonempty j _ equals (sym e))
print_metadata-injective ((i, v) ∷ m) [] h k e = absurd (append_nonempty i _ equals e)
print_metadata-injective ((i, v) ∷ m) ((j, u) ∷ n) h k e =
    let (p, e1) = append-sep-injective equals i j _ _ h.0.0 k.0.0 e in
    let (q, e2) = append-sep-injective newline v u _ _ h.0.1 k.0.1 e1 in
    let r = print_metadata-injective m n h.1 k.1 e2 in cc

pub preimage-SameContents :
    (d : Digest) (r q : Record)
    → IsPrinter d
    → Lacks newline r.prev_hash
    → Lacks newline q.prev_hash
    → IsPlain r
    → IsPlain q
    → preimage d r ≡ preimage d q
    → SameContents r q
unfolding preimage
preimage-SameContents d r q pr hr hq a b e0 =
    let sep = append-sep-injective newline in
    let (s, e1) = sep _ _ _ _ (decimal-Lacks r.seq) (decimal-Lacks q.seq) e0 in
    let (p, e2) = sep _ _ _ _ hr hq e1 in
    let (o, e3) = sep _ _ _ _ a.org_id b.org_id e2 in
    let (x, e4) = sep _ _ _ _ a.actor b.actor e3 in
    let (y, e5) = sep _ _ _ _ a.action b.action e4 in
    let (z, e6) = sep _ _ _ _ a.target b.target e5 in
    let (t, e7) = sep _ _ _ _ (pr.clean r.event.time) (pr.clean q.event.time) e6 in
    (
      decimal-injective r.seq q.seq s,
      o,
      x,
      y,
      z,
      pr.injective r.event.time q.event.time t,
      print_metadata-injective (sort_keys r.event.metadata) (sort_keys q.event.metadata)
          (sort_keys-PlainEntries r.event.metadata a.metadata)
          (sort_keys-PlainEntries q.event.metadata b.metadata) e7,
    )
