-- ===== src/Authz/Jwks/Tests.antt =====
-- The key source on a small network.
use mcp_gateway_w.Prelude.{
  ℕ, suc, ◌≡◌, refl, List, [], ◌∷◌, none, some, Text, lit, text_beq, if◌then◌else◌,
}
use mcp_gateway_w.Prelude.Dict.{lookup, insert}
use mcp_gateway_w.Authz.Jwks.{
  PublicKey, Network, new_jwks_key_source, decode_string, certs_url, key_for,
}
use mcp_gateway_w.Authz.Jwks.Published.{IsPublished, run, key_for-IsPublished}

-- 65537.
decoded : decode_string (lit "AQAB") ≡ some (1 ∷ 0 ∷ 1 ∷ [])
unfolding decode_string
decoded = refl

unpadded : decode_string (lit "AQ") ≡ some (1 ∷ [])
unfolding decode_string
unpadded = refl

refused : decode_string (lit "AQ==") ≡ none
unfolding decode_string
refused = refl

-- One issuer publishes a key.
abbrev acme : Text
acme = lit "acme"

abbrev net : Network ℕ
net = record {
  get = λ w url. (if text_beq url (certs_url acme) then some (200, []) else some (404, []), suc w);
  decode = λ body. some (
      record { kid = lit "k1"; kty = lit "RSA"; n = lit "Aw"; e = lit "AQAB" }
      ∷ record { kid = lit "k2"; kty = lit "EC"; n = []; e = [] }
      ∷ []);
  clock = λ n. n;
}

abbrev key : PublicKey
key = record { modulus = 3; exponent = 65537 }

abbrev before : List (Text × Text)
before = (lit "other", lit "k1") ∷ (acme, lit "k2") ∷ []

key_for-IsPublished_example :
    let st = run net (new_jwks_key_source 0) before in
    IsPublished net acme (lit "k1") key st (key_for net st acme (lit "k1")).1
unfolding run key_for new_jwks_key_source lookup insert text_beq
key_for-IsPublished_example = key_for-IsPublished net 0 before acme (lit "k1") key refl
