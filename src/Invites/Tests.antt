-- ===== src/Invites/Tests.antt =====
-- invites: runs on small inputs, and the theorems at concrete tokens.
use mcp_gateway_w.Prelude.{
  arith, ◌+◌, ◌≡◌, ◌≢◌, ℕ, refl, true, List, [], ◌∷◌, none, some, Text, lit, text_beq,
}
use mcp_gateway_w.Prelude.Dict.{lookup, insert}
use mcp_gateway_w.Idp.{Keycloak, ok}
use mcp_gateway_w.Invites.{
  get_by_token_hash, get_invitation, update_invitation, new_token, cut_dot, parse_token,
}
use mcp_gateway_w.Invites.Handlers.{
  Handlers, State, creates, revokes, handle, record_event, create, revoke, assign_roles, granted,
  grant, create_invited, accept_found, accept,
}
use mcp_gateway_w.Invites.Once.{Step, manages, run, accept_once}

runs : Unit {0}
unfolding text_beq lookup insert get_by_token_hash get_invitation update_invitation new_token
    cut_dot parse_token record_event create revoke assign_roles granted grant create_invited
    accept_found accept
runs = tt

abbrev provider : Keycloak (List Text)
provider = record {
  realm_exists = λ w r. ok true;
  create_realm = λ w r. (none, w);
  set_realm_enabled = λ w r b. (none, w);
  delete_realm = λ w r. (none, w);
  create_client = λ w r c. (ok [], w);
  add_protocol_mapper = λ w r c m. (none, w);
  create_realm_role = λ w r role. (none, w);
  create_user = λ w r u. (ok u.email, r ∷ u.email ∷ w);
  assign_realm_role = λ w r u role. (none, role ∷ w);
}

abbrev handlers : Handlers (List Text)
handlers = record {
  kc = some provider;
  audited = true;
  clock = λ n. 10 + n;
  hash = λ s. b'#' ∷ s;
  secret = λ n. lit "s3cret";
  new_id = λ n. lit "inv_1";
}

abbrev empty : State (List Text)
empty = record { outer = []; invitations = []; events = []; sent = []; readings = 0 }

abbrev invited : State (List Text)
invited =
    (create handlers empty (lit "acme") (lit "op")
      (some (record { email = lit "a@b"; roles = lit "dev" ∷ [] }))).1

joined :
    (accept handlers invited (lit "acme.s3cret")).1.outer ≡ lit "dev" ∷ lit "acme" ∷ lit "a@b" ∷ []
unfolding runs
joined = refl

used_once :
    (accept handlers (accept handlers invited (lit "acme.s3cret")).1 (lit "acme.s3cret")).0.status
    ≡ 410
unfolding runs
used_once = refl

other_org : (accept handlers invited (lit "other.s3cret")).0.status ≡ 410
unfolding runs
other_org = refl

revoked_twice :
    (revoke handlers
      (accept handlers invited (lit "acme.s3cret")).1
      (lit "acme")
      (lit "op")
      (lit "inv_1")).0.status
    ≡ 204
unfolding runs
revoked_twice = refl

-- Ids and secrets that name the reading at which they were made.
abbrev numbered : Handlers (List Text)
numbered = record {
  kc = some provider;
  audited = true;
  clock = λ n. 10 + n;
  hash = λ s. b'#' ∷ s;
  secret = λ n. (65 + n) ∷ [];
  new_id = λ n. n ∷ [];
}

ids_differ : (a b : ℕ) → numbered.new_id a ≡ numbered.new_id b → a ≡ b
ids_differ a b e = ground (arith, e)

hashes_differ :
    (a b : ℕ) → numbered.hash (numbered.secret a) ≡ numbered.hash (numbered.secret b) → a ≡ b
hashes_differ a b e = ground (arith, e)

abbrev invites_two : List Step
invites_two =
    manages (lit "acme") (lit "op")
      (creates (some (record { email = lit "a@b"; roles = lit "dev" ∷ [] })))
    ∷ manages (lit "globex") (lit "op") (creates (some (record { email = lit "c@d"; roles = [] })))
    ∷ []

abbrev meanwhile : List Step
meanwhile =
    manages (lit "acme") (lit "op")
      (creates (some (record { email = lit "a@b"; roles = lit "dev" ∷ [] })))
    ∷ manages (lit "acme") (lit "op") (revokes (0 ∷ []))
    ∷ []

first_accepted : (accept numbered (run numbered empty invites_two) (lit "acme.A")).0.status ≡ 200
unfolding runs run handle
first_accepted = refl

accept_once_example :
    (accept numbered
      (run numbered (accept numbered (run numbered empty invites_two) (lit "acme.A")).1 meanwhile)
      (lit "acme.A")).0.status
    ≢ 200
accept_once_example =
    accept_once numbered empty invites_two meanwhile (lit "acme.A") ids_differ hashes_differ refl
      first_accepted
