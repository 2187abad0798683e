-- ===== src/Authz/Jwks.antt =====
-- pkg/authz/jwks.go: the keys that issuers publish, cached for ten minutes. The network is `get`,
-- over its states, which answers a status and a body or an error, and JSON is `decode`; `fetched` lists the documents
-- that came, latest first, each with the URL that was requested and the reading of the clock that comes
-- next. Times are nanoseconds. One call runs at a
-- time, and an exponent is below 2^63.
mod Collected
mod Published
mod Tests
use mcp_gateway_w.Prelude.{
  ℕ, zero, suc, ◌+◌, ◌-◌, ◌*◌, ◌/◌, ◌%◌, Bool, true, false, not, ◌&&◌, ◌||◌, List, [], ◌∷◌, ◌++◌,
  Option, none, some, Text, lit, text_beq, ltb, leb, nat_beq, if◌then◌else◌,
}
use mcp_gateway_w.Prelude.Dict.{Dict, lookup, insert}

pub record PublicKey : Type 0 where
  pub modulus : ℕ
  pub exponent : ℕ

pub record Jwk : Type 0 where
  pub kid : Text
  pub kty : Text
  pub n : Text
  pub e : Text

pub record Entry : Type 0 where
  pub keys : Dict PublicKey
  pub fetched_at : ℕ

-- A document with the URL that was requested; `reading` is the number of the clock's next reading.
pub record Document : Type 0 where
  pub url : Text
  pub reading : ℕ
  pub published : List Jwk

pub record Network (W : Type 0) : Type 0 where
  pub get : W → Text → Option (ℕ × Text) × W
  pub decode : Text → Option (List Jwk)
  pub clock : ℕ → ℕ

pub record State (W : Type 0) : Type 0 where
  pub cache : Dict Entry
  pub outer : W
  pub readings : ℕ
  pub fetched : List Document

unfoldable pub new_jwks_key_source : {W : Type 0} → W → State W
new_jwks_key_source w = record { cache = []; outer = w; readings = 0; fetched = [] }

-- Ten minutes.
abbrev pub ttl : ℕ
ttl = 600_000_000_000

-- `StaticKeySource.KeyFor`.
unfoldable pub static_key_for : {Key : Type 0} → Dict Key → Text → Option Key
static_key_for keys kid = elim (lookup kid keys) [ some k ↦ some k | none ↦ lookup [] keys ]

-- What a character of `base64.RawURLEncoding` stands for.
unfoldable pub digit64 : ℕ → Option ℕ
digit64 c =
    if leb b'A' c && leb c b'Z'
    then some (c - b'A')
    else if leb b'a' c && leb c b'z'
    then some (c - b'a' + 26)
    else if leb b'0' c && leb c b'9'
    then some (c - b'0' + 52)
    else if nat_beq c b'-'
    then some 62
    else if nat_beq c b'_'
    then some 63
    else none

-- Line ends are skipped.
unfoldable pub digits64 : Text → Option (List ℕ)
unfolding digit64
digits64 [] = some []
digits64 (c ∷ s) =
    let rest = digits64 s in
    let more : Option (List ℕ) = elim (digit64 c) [
      | none ↦ none
      | some d ↦ elim rest [ none ↦ none | some ds ↦ some (d ∷ ds) ]
    ] in
    if nat_beq c 10 || nat_beq c 13 then rest else more

-- Four digits are three bytes, and two or three that are left are one or two.
unfoldable pub bytes64 : List ℕ → Option Text
bytes64 [] = some []
bytes64 (a ∷ []) = none
bytes64 (a ∷ b ∷ []) = some ((a * 4 + b / 16) ∷ [])
bytes64 (a ∷ b ∷ c ∷ []) = some ((a * 4 + b / 16) ∷ (b % 16 * 16 + c / 4) ∷ [])
bytes64 (a ∷ b ∷ c ∷ d ∷ ds) = elim (bytes64 ds) [
  | none ↦ none
  | some s ↦ some ((a * 4 + b / 16) ∷ (b % 16 * 16 + c / 4) ∷ (c % 4 * 64 + d) ∷ s)
]

unfoldable pub decode_string : Text → Option Text
unfolding digits64 bytes64
decode_string s = elim (digits64 s) [ none ↦ none | some ds ↦ bytes64 ds ]

-- `big.Int.SetBytes`, after the number so far.
unfoldable pub set_bytes : ℕ → Text → ℕ
set_bytes n [] = n
set_bytes n (b ∷ s) = set_bytes (n * 256 + b) s

unfoldable pub rsa_public_key : Text → Text → Option PublicKey
unfolding decode_string set_bytes
rsa_public_key n e = elim (decode_string n) [
  | none ↦ none
  | some n ↦ elim (decode_string e) [
    | none ↦ none
    | some e ↦ some (record { modulus = set_bytes 0 n; exponent = set_bytes 0 e })
  ]
]

-- The loop over a document's keys; of two keys of one id the later one stands.
unfoldable pub collect_keys : Dict PublicKey → List Jwk → Dict PublicKey
unfolding rsa_public_key
collect_keys keys [] = keys
collect_keys keys (k ∷ ks) =
    let skipped = collect_keys keys ks in
    let kept : Dict PublicKey = elim (rsa_public_key k.n k.e) [
      | none ↦ skipped
      | some p ↦ collect_keys (insert k.kid p keys) ks
    ] in
    if not (text_beq k.kty (lit "RSA")) then skipped else kept

abbrev pub certs_url : Text → Text
certs_url issuer = issuer ++ lit "/protocol/openid-connect/certs"

module _ {W : Type 0} (net : Network W) where
  abbrev document_of : Option (ℕ × Text) → Option (List Jwk)
  document_of none = none
  document_of (some (status, body)) = if nat_beq status 200 then net.decode body else none

  -- What came of a request for the URL.
  unfoldable pub received : State W → Text → W → Option (List Jwk) → Option (List Jwk) × State W
  received st url w none = (none, record st { outer = w })
  received st url w (some ks) = (
    some ks,
    record st {
      outer = w;
      fetched = record { url = url; reading = st.readings; published = ks } ∷ st.fetched;
    },
  )

  unfoldable pub fetch : State W → Text → Option (List Jwk) × State W
  unfolding received
  fetch st url = let (a, w1) = net.get st.outer url in received st url w1 (document_of a)

  -- At the entry of the issuer; the clock is read if there is one.
  unfoldable pub cached_in : State W → Text → Option Entry → Option PublicKey × State W
  cached_in st kid none = (none, st)
  cached_in st kid (some e) =
      let st1 : State W = record st { readings = suc st.readings } in
      if ltb ttl (net.clock st.readings - e.fetched_at)
      then (none, st1)
      else (lookup kid e.keys, st1)

  unfoldable pub cached : State W → Text → Text → Option PublicKey × State W
  unfolding cached_in
  cached st issuer kid = cached_in st kid (lookup issuer st.cache)

  -- What is stored of a document that came.
  unfoldable pub store_keys : State W → Text → List Jwk → State W
  unfolding collect_keys
  store_keys st issuer ks =
      let t = net.clock st.readings in
      record st {
        cache = insert issuer (record { keys = collect_keys [] ks; fetched_at = t }) st.cache;
        readings = suc st.readings;
      }

  -- An answer of false is an error.
  unfoldable pub refresh : State W → Text → Bool × State W
  unfolding store_keys fetch
  refresh st issuer =
      let (a, st1) = fetch st (certs_url issuer) in
      elim a [ none ↦ (false, st1) | some ks ↦ (true, store_keys st1 issuer ks) ]

  -- After the cache did not have the key.
  unfoldable pub refreshed : Text → Text → Bool × State W → Option PublicKey × State W
  unfolding cached
  refreshed issuer kid (false, st) = (none, st)
  refreshed issuer kid (true, st) = cached st issuer kid

  unfoldable pub looked_up : Text → Text → Option PublicKey × State W → Option PublicKey × State W
  unfolding refreshed refresh
  looked_up issuer kid (some k, st) = (some k, st)
  looked_up issuer kid (none, st) = refreshed issuer kid (refresh st issuer)

  unfoldable pub key_for : State W → Text → Text → Option PublicKey × State W
  unfolding looked_up cached
  key_for st issuer kid = looked_up issuer kid (cached st issuer kid)
