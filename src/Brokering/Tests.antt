-- ===== src/Brokering/Tests.antt =====
-- The brokering of identity providers on small inputs, and the theorem at a concrete request.
use mcp_gateway_w.Prelude.{
  ◌+◌, ◌≡◌, refl, subst, true, List, [], ◌∷◌, ◌++◌, none, some, Text, lit, text_beq, arith,
}
use mcp_gateway_w.Prelude.Dict.{Dict, lookup, insert, erase}
use mcp_gateway_w.Secrets.{mem_store}
use mcp_gateway_w.Brokering.{IdentityProvider, Broker, link_key, upsert_link, get_link, delete_link}
use mcp_gateway_w.Brokering.Handlers.{
  Handlers, State, PutReq, secret_ref, provider_config, record_event, new_link, applied,
  secret_stored, store_secret, put_with, put, dropped, delete_found, delete,
}
use mcp_gateway_w.Brokering.Secrecy.{IsBlind, SameSight, put-SameSight}

runs : Unit {0}
unfolding text_beq lookup insert erase mem_store link_key upsert_link get_link delete_link
    secret_ref provider_config record_event new_link applied secret_stored store_secret put_with put
    dropped delete_found delete
runs = tt

abbrev broker : Broker (List IdentityProvider)
broker = record {
  upsert_identity_provider = λ w org p. (none, p ∷ w);
  delete_identity_provider = λ w org alias. (none, []);
}

abbrev handlers : Handlers (List IdentityProvider) (Dict (Dict Text))
handlers = record {
  broker = some broker;
  secrets = some mem_store;
  audited = true;
  clock = λ n. 10 + n;
  new_id = λ n. lit "idl_" ++ (b'0' + n) ∷ [];
}

abbrev empty : State (List IdentityProvider) (Dict (Dict Text))
empty = record { outer = []; secrets = []; links = []; events = []; readings = 0 }

abbrev okta : PutReq
okta = record {
  link_type = lit "oidc";
  config = (lit "issuer", lit "okta") ∷ [];
  secret = lit "s3cret";
  role_mappings = [];
}

abbrev one : State (List IdentityProvider) (Dict (Dict Text))
one = (put handlers empty (lit "acme") (lit "op") (lit "okta") (some okta)).1

vaulted : lookup (lit "idp/acme/okta") one.secrets ≡ some ((lit "clientSecret", lit "s3cret") ∷ [])
unfolding runs
vaulted = refl

gone : (delete handlers one (lit "acme") (lit "op") (lit "okta")).1.secrets ≡ []
unfolding runs
gone = refl

not_over_there : (delete handlers one (lit "other") (lit "op") (lit "okta")).0.status ≡ 404
unfolding runs
not_over_there = refl

handlers-IsBlind : IsBlind handlers
unfolding runs
handlers-IsBlind = record {
  broker = λ b e w org p c s t n m.
      let same : broker ≡ b = cc (e) in
      subst
        (λ b.
          (b.upsert_identity_provider w org
            (record p { config = insert (lit "clientSecret") s c })).0
          ≡ (b.upsert_identity_provider w org
              (record p { config = insert (lit "clientSecret") t c })).0)
        same refl;
  secrets = λ api e x ref v v'.
      let same : mem_store ≡ api = cc (e) in
      subst (λ api. (api.put x ref v).0 ≡ (api.put x ref v').0) same refl;
}

put-SameSight_example :
    SameSight (put handlers empty (lit "acme") (lit "op") (lit "okta") (some okta)) (
      put handlers empty
        (lit "acme")
        (lit "op")
        (lit "okta")
        (some (record okta { secret = lit "other" })))
put-SameSight_example =
    put-SameSight handlers empty (lit "acme") (lit "op") (lit "okta") okta (lit "other")
      handlers-IsBlind (ground arith) (ground arith)
