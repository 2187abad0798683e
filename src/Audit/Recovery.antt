-- ===== src/Audit/Recovery.antt =====
-- s3.go: the archive against the log in memory. `Holds` says that the store holds the records of a
-- log, whatever the order of its listing, and that the archive continues it.
use mcp_gateway_w.Prelude.{
  ℕ, ◌+◌, ◌^◌, ◌<◌, ◌≡◌, ◌≢◌, refl, sym, ap, subst, ◌∙◌, inl, inr, Bool, true, Bool-cases, List, [],
  ◌∷◌, ◌++◌, Option, none, some, Text, text_beq, eq_refl, below, length, length-append, All,
  All-append, arith, ℤ, pos_part, if◌then◌else◌,
}
use mcp_gateway_w.Audit.{
  Event, Record, Digest, last_hash, seal, append_record, list_records, verify,
}
use mcp_gateway_w.Audit.Archive.{
  Bucket, Archive, key_for_seq, sort_by_seq, sealed, get_record, ensure_bucket, tip_of, load_tip,
  new_s3_archive, record_event, read_objects, all_records, list_archived, verify_archived,
}
use mcp_gateway_w.Audit.Keys.{key_for_seq-injective}
use mcp_gateway_w.Audit.Sorting.{Below, sort_by_seq-append}
use mcp_gateway_w.Audit.Objects.{
  IsKey, some-injective, key_nonempty, tip_from-top, read_objects-append, read_objects-insert,
  read_objects-other,
}

-- What the object store documents: an object that is stored under a new key is listed somewhere among
-- the others and is read back, and the others stay. JSON reads back what it writes.
pub record Documented {W J : Type 0} (b : Bucket W J) : Type 0 where
  pub decoded : (r : Record) → b.decode (b.encode r) ≡ some r
  pub stored :
      (w w1 : W) (key : Text) (body : J) (until : Option ℕ)
      → b.put_object w key body until ≡ (true, w1)
      → All (λ o. o ≢ some key) (b.list_objects w)
      → (ks : List (Option Text)) × (ls : List (Option Text)) × (b.list_objects w ≡ ks ++ ls)
        × (b.list_objects w1 ≡ ks ++ some key ∷ ls)
        × ((j : Text)
            → b.get_object w1 j ≡ (if text_beq key j then some body else b.get_object w j))

module _ {W J : Type 0} (b : Bucket W J) where
  abbrev pub fresh : ℤ → Archive
  fresh retention = record { retention = retention; seq = 0; last_hash = [] }

  -- The store holds the records, and the archive continues them.
  pub record Holds (w : W) (rs : List Record) (a : Archive) : Type 0 where
    pub small : length rs + 1 < 2 ^ 63
    pub seq : a.seq ≡ length rs
    pub hash : a.last_hash ≡ last_hash [] rs
    pub keys : All (IsKey (length rs + 1)) (b.list_objects w)
    pub objects : List Record
    pub read : read_objects b w (b.list_objects w) ≡ some objects
    pub low : Below (length rs + 1) objects
    pub sorted : sort_by_seq objects ≡ rs
    pub tip : load_tip b w (fresh a.retention) ≡ some a

  All-split :
      {A : Type 0} (P : A → Type 0) (ks ls : List A) → All P (ks ++ ls) → All P ks × All P ls
  All-split P [] ls h = (tt, h)
  All-split P (k ∷ ks) ls h = let (x, y) = All-split P ks ls h.1 in ((h.0, x), y)

  -- No key of a record that is held is that of the next.
  keys-new :
      (n : ℕ) (ks : List (Option Text))
      → n < 2 ^ 63
      → All (IsKey n) ks
      → All (λ o. o ≢ some (key_for_seq n)) ks
  keys-new n [] h k = tt
  keys-new n (o ∷ ks) h ((s, e, l), k) = (
    λ q.
        absurd (
          omega (arith, l, key_for_seq-injective s n (omega arith) h (some-injective (sym e ∙ q)))),
    keys-new n ks h k,
  )

  keys-more : (n : ℕ) (ks : List (Option Text)) → All (IsKey n) ks → All (IsKey (n + 1)) ks
  keys-more n [] k = tt
  keys-more n (o ∷ ks) ((s, e, l), k) = ((s, e, omega arith), keys-more n ks k)

  tip_of-found :
      (w : W) (a : Archive) (n : ℕ) (key : Text) (r : Record)
      → key ≢ []
      → get_record b w key ≡ some r
      → tip_of b w a (n, key) ≡ some (record a { seq = n; last_hash = r.hash })
  tip_of-found w a n [] r ne g = absurd (ne refl)
  tip_of-found w a n (k ∷ key) r ne g = rw (g, tip_of) refl

  load_tip-top :
      (w : W) (retention : ℤ) (n : ℕ) (r : Record) (ks ls : List (Option Text))
      → n < 2 ^ 63
      → 0 < n
      → b.list_objects w ≡ ks ++ some (key_for_seq n) ∷ ls
      → All (IsKey n) ks
      → All (IsKey n) ls
      → get_record b w (key_for_seq n) ≡ some r
      → load_tip b w (fresh retention)
        ≡ some (record { retention = retention; seq = n; last_hash = r.hash })
  unfolding load_tip
  load_tip-top w retention n r ks ls h l e k k' g =
      rw (e, tip_from-top n 0 [] ks ls h l k k', load_tip)
        (tip_of-found w (fresh retention) n (key_for_seq n) r (key_nonempty n) g)

  last_hash-append :
      (prev : Text) (rs : List Record) (r : Record) → last_hash prev (rs ++ r ∷ []) ≡ r.hash
  unfolding last_hash
  last_hash-append prev [] r = refl
  last_hash-append prev (q ∷ rs) r = last_hash-append q.hash rs r

  sealed-seal :
      (d : Digest) (now : ℕ) (a : Archive) (rs : List Record) (e : Event)
      → a.seq ≡ length rs
      → a.last_hash ≡ last_hash [] rs
      → sealed d a now e ≡ seal d now rs e
  unfolding sealed seal
  sealed-seal d now a rs e p q = rw (p, q) refl

  get_record-stored :
      Documented b
      → (w w1 : W) (key : Text) (r : Record)
      → ((j : Text)
          → b.get_object w1 j ≡ (if text_beq key j then some (b.encode r) else b.get_object w j))
      → get_record b w1 key ≡ some r
  unfolding get_record
  get_record-stored doc w w1 key r f =
      let e : b.get_object w1 key ≡ some (b.encode r) =
        f key
        ∙ ap (λ (t : Bool). if t then some (b.encode r) else b.get_object w key) (eq_refl key) in
      rw (e, get_record) (doc.decoded r)

  Below-more : (n : ℕ) (rs : List Record) → Below n rs → Below (n + 1) rs
  Below-more n [] h = tt
  Below-more n (r ∷ rs) h = (omega (arith, h.0), Below-more n rs h.1)

  -- After one more record was stored under its key.
  stored-Holds :
      Documented b
      → (w w1 : W) (rs : List Record) (a : Archive) (r : Record) (until : Option ℕ) → Holds w rs a
      → r.seq ≡ length rs + 1
      → length rs + 2 < 2 ^ 63
      → b.put_object w (key_for_seq r.seq) (b.encode r) until ≡ (true, w1)
      → Holds w1 (rs ++ r ∷ []) (record a { seq = r.seq; last_hash = r.hash })
  stored-Holds doc w w1 rs a r until held s small put =
      let n = length rs + 1 in
      let e : r.seq ≡ n = s in
      let len : length (rs ++ r ∷ []) ≡ n = length-append rs (r ∷ []) in
      let put' =
        subst (λ m. b.put_object w (key_for_seq m) (b.encode r) until ≡ (true, w1)) e put in
      let (ks, ls, p, q, f) =
        doc.stored w w1 (key_for_seq n) (b.encode r) until put'
          (keys-new n (b.list_objects w) (held.small) held.keys) in
      let (k, k') = All-split (IsKey n) ks ls (subst (All (IsKey n)) p held.keys) in
      let (ys, zs, y, z, t) =
        read_objects-append b w ks ls held.objects
          (subst (λ l. read_objects b w l ≡ some held.objects) p held.read) in
      let g = get_record-stored doc w w1 (key_for_seq n) r f in
      let (c, c') = All-split (λ (x : Record). x.seq < n) ys zs (subst (Below n) t held.low) in
      let old = λ (l : List (Option Text)) (xs : List Record) (h : All (IsKey n) l).
        read_objects-other b w w1 (key_for_seq n) (b.encode r) l xs f (keys-new n l held.small h) in
      record {
        small = omega (arith, len, small);
        seq = e ∙ sym len;
        hash = sym (last_hash-append [] rs r);
        keys =
            subst (λ m. All (IsKey (m + 1)) (b.list_objects w1)) (sym len)
              (subst (All (IsKey (n + 1))) (sym q) (
                All-append (IsKey (n + 1)) ks (some (key_for_seq n) ∷ ls) (keys-more n ks k)
                  ((n, refl, omega arith), keys-more n ls k')));
        objects = ys ++ r ∷ zs;
        read =
            subst (λ l. read_objects b w1 l ≡ some (ys ++ r ∷ zs)) (sym q)
              (read_objects-insert b w1 ks ls ys zs (key_for_seq n) r (old ks ys k y)
                (old ls zs k' z) g);
        low =
            subst (λ m. Below (m + 1) (ys ++ r ∷ zs)) (sym len)
              (All-append (λ (x : Record). x.seq < n + 1) ys (r ∷ zs) (Below-more n ys c)
                (omega (arith, e), Below-more n zs c'));
        sorted =
            sort_by_seq-append ys zs r
              (subst (λ m. Below m (ys ++ zs)) (sym e) (subst (Below n) t held.low))
            ∙ ap (λ l. l ++ r ∷ []) (ap sort_by_seq (sym t) ∙ held.sorted);
        tip =
            load_tip-top w1 a.retention n r ks ls held.small (omega arith) q k k' g
            ∙ ap (λ (m : ℕ). some (record { retention = a.retention; seq = m; last_hash = r.hash }))
                (sym e);
      }

  abbrev until : Archive → ℕ → Option ℕ
  until a now = if below 0 a.retention then some (now + pos_part a.retention) else none

  record_event-stored :
      (d : Digest) (now now' : ℕ) (w w1 : W) (a a1 : Archive) (e : Event)
      → record_event b d now now' a w e ≡ (true, a1, w1)
      → let r = sealed d a now e in
        (b.put_object w (key_for_seq r.seq) (b.encode r) (until a now') ≡ (true, w1))
        × (record a { seq = r.seq; last_hash = r.hash } ≡ a1)
  unfolding record_event
  record_event-stored d now now' w w1 a a1 e h =
      let r = sealed d a now e in
      let p = b.put_object w (key_for_seq r.seq) (b.encode r) (until a now') in
      elim (Bool-cases p.0) [
        | inl x ↦ (ground (arith, x, h), ground (arith, x, h))
        | inr x ↦ absurd (ground (arith, x, h))
      ]

  pub record_event-retention :
      (d : Digest) (now now' : ℕ) (w w1 : W) (a a1 : Archive) (e : Event)
      → record_event b d now now' a w e ≡ (true, a1, w1)
      → a1.retention ≡ a.retention
  record_event-retention d now now' w w1 a a1 e h =
      ap (λ (x : Archive). x.retention) (sym (record_event-stored d now now' w w1 a a1 e h).1)

  pub record_event-Holds :
      Documented b
      → (d : Digest) (now now' : ℕ) (w w1 : W) (rs : List Record) (a a1 : Archive) (e : Event)
      → Holds w rs a
      → length rs + 2 < 2 ^ 63
      → record_event b d now now' a w e ≡ (true, a1, w1)
      → Holds w1 (append_record d now rs e) a1
  unfolding append_record
  record_event-Holds doc d now now' w w1 rs a a1 e held small rec =
      let r = sealed d a now e in
      let (p, q) = record_event-stored d now now' w w1 a a1 e rec in
      let s = sealed-seal d now a rs e held.seq held.hash in
      let n : r.seq ≡ length rs + 1 = ap (λ (x : Record). x.seq) s in
      let h = stored-Holds doc w w1 rs a r (until a now') held n small p in
      subst (λ (x : Record). Holds w1 (rs ++ x ∷ []) a1) s (subst (Holds w1 (rs ++ r ∷ [])) q h)

  -- A writer that starts on a store that holds a log has the archive that wrote the last record.
  pub new_s3_archive-Holds :
      (w : W) (rs : List Record) (a : Archive)
      → Holds w rs a
      → b.bucket_exists w ≡ some true
      → new_s3_archive b w a.retention ≡ (some a, w)
  unfolding new_s3_archive ensure_bucket
  new_s3_archive-Holds w rs a held e = rw (e, new_s3_archive, ensure_bucket) (rw held.tip refl)

  -- `Verify` and `List` of the archive answer what they answer of the log in memory.
  pub verify_archived-Holds :
      (d : Digest) (w : W) (rs : List Record) (a : Archive) (org : Text) (limit : ℕ)
      → Holds w rs a
      → (verify_archived b d w ≡ some (verify d rs))
        × (list_archived b w org limit ≡ some (list_records org limit rs))
  unfolding verify_archived list_archived all_records verify list_records
  verify_archived-Holds d w rs a org limit held =
      let e : all_records b w ≡ some rs = rw (held.read, all_records) (ap some held.sorted) in
      (rw (e, verify_archived) refl, rw (e, list_archived) refl)
