-- ===== src/Secrets/Vault.antt =====
-- pkg/secrets/vault.go: the secrets in Vault. The network is `exchange`, over its states, and documents of a
-- type `J` are read by `decode`; what goes wrong before or instead of a response is `no_answer`.
mod Simulation
mod Tests
use mcp_gateway_w.Prelude.{
  ℕ, ◌/◌, Bool, true, false, not, ◌&&◌, [], ◌∷◌, ◌++◌, Option, none, some, Text, lit, nat_beq,
  if◌then◌else◌,
}
use mcp_gateway_w.Prelude.Dict.{Dict}

pub record Request : Type 0 where
  pub method : Text
  pub url : Text
  pub token : Text
  pub body : Option (Dict Text)

pub record Response (J : Type 0) : Type 0 where
  pub status : ℕ
  pub body : J

pub data Exchanged (J : Type 0) : Type 0 where
  no_answer : Exchanged J
  answer : Response J → Exchanged J

pub record Network (W J : Type 0) : Type 0 where
  pub exchange : W → Request → Exchanged J × W
  pub decode : J → Option (Dict Text)

pub record VaultStore : Type 0 where
  pub addr : Text
  pub token : Text
  pub mount : Text

unfoldable pub new_vault_store : Text → Text → VaultStore
new_vault_store addr token = record { addr = addr; token = token; mount = lit "secret" }

unfoldable pub data_url : VaultStore → Text → Text
data_url v ref = v.addr ++ (lit "/v1/" ++ (v.mount ++ (lit "/data/" ++ ref)))

unfoldable pub metadata_url : VaultStore → Text → Text
metadata_url v ref = v.addr ++ (lit "/v1/" ++ (v.mount ++ (lit "/metadata/" ++ ref)))

pub data Got : Type 0 where
  found : Dict Text → Got
  not_found : Got
  failed : Got

abbrev is_success : ℕ → Bool
is_success status = nat_beq (status / 100) 2

module _ {W J : Type 0} (net : Network W J) (v : VaultStore) where
  unfoldable pub vault_do : W → Text → Text → Option (Dict Text) → Exchanged J × W
  vault_do w method url body =
      net.exchange w (record { method = method; url = url; token = v.token; body = body })

  abbrev put_answer : Exchanged J → Bool
  put_answer no_answer = false
  put_answer (answer r) = is_success r.status

  -- An answer of false is an error.
  unfoldable pub vault_put : W → Text → Dict Text → Bool × W
  unfolding vault_do data_url
  vault_put w ref values =
      let (a, w1) = vault_do w (lit "POST") (data_url v ref) (some values) in (put_answer a, w1)

  abbrev get_answer : Exchanged J → Got
  get_answer no_answer = failed
  get_answer (answer r) =
      if nat_beq r.status 404
      then not_found
      else if not (is_success r.status)
      then failed
      else elim (net.decode r.body) [ none ↦ failed | some values ↦ found values ]

  unfoldable pub vault_get : W → Text → Got × W
  unfolding vault_do data_url
  vault_get w ref = let (a, w1) = vault_do w (lit "GET") (data_url v ref) none in (get_answer a, w1)

  abbrev delete_answer : Exchanged J → Bool
  delete_answer no_answer = false
  delete_answer (answer r) =
      if not (is_success r.status) && not (nat_beq r.status 404) then false else true

  unfoldable pub vault_delete : W → Text → Bool × W
  unfolding vault_do metadata_url
  vault_delete w ref =
      let (a, w1) = vault_do w (lit "DELETE") (metadata_url v ref) none in (delete_answer a, w1)
