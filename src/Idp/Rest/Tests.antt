-- ===== src/Idp/Rest/Tests.antt =====
-- The client of the admin API against a small identity provider.
use mcp_gateway_w.Prelude.{
  ℕ, ◌+◌, ◌*◌, ◌<◌, ◌≡◌, ◌≢◌, refl, true, false, [], ◌∷◌, ◌++◌, Option, none, some, Text, lit,
  text_beq, text_eq_iff, arith, if◌then◌else◌, pos,
}
use mcp_gateway_w.Prelude.Dict.{Dict, lookup, insert, lookup-insert}
use mcp_gateway_w.Idp.{ok}
use mcp_gateway_w.Idp.Escape.{path_escape}
use mcp_gateway_w.Brokering.{IdentityProvider}
use mcp_gateway_w.Idp.Rest.{
  text, Body, fields, one_of, Request, token_request, admin_request, Exchanged, answer, Network,
  State, RestClient, new_rest_client, store_token, access_token, second,
}
use mcp_gateway_w.Idp.Rest.Api.{provider_rep, upsert_identity_provider, id_from_location}
use mcp_gateway_w.Idp.Rest.Tokens.{access_token-IsLive}
use mcp_gateway_w.Idp.Rest.Paths.{run_call, Quiet, run_call-Isolates, assigns_role}
use mcp_gateway_w.Idp.Rest.Upsert.{Instances, IsPut, upsert_identity_provider-IsPut}

abbrev status : ℕ → Exchanged
status n = answer (record { status = n; location = lit "/clients/7"; body = [] })

abbrev alias_of : Option Body → Text
alias_of none = []
alias_of (some (one_of b)) = []
alias_of (some (fields [])) = []
alias_of (some (fields ((k, text a) ∷ b))) = a
alias_of (some (fields ((k, j) ∷ b))) = []

abbrev body_of : Option Body → Body
body_of none = fields []
body_of (some b) = b

-- What stands at the URLs.
abbrev post_at : Text → Body → Dict Body → Option Body → Exchanged × Dict Body
post_at url b w none = (status 201, insert url b w)
post_at url b w (some _) = (status 409, w)

abbrev put_at : Text → Body → Dict Body → Option Body → Exchanged × Dict Body
put_at url b w none = (status 404, w)
put_at url b w (some _) = (status 204, insert url b w)

abbrev exchange : Dict Body → Request → Exchanged × Dict Body
exchange w (token_request url id secret) = (status 200, w)
exchange w (admin_request method url authorization b) =
    if text_beq method (lit "POST")
    then post_at (url ++ (b'/' ∷ path_escape (alias_of b))) (body_of b) w
        (lookup (url ++ (b'/' ∷ path_escape (alias_of b))) w)
    else if text_beq method (lit "PUT")
    then put_at url (body_of b) w (lookup url w)
    else (status 200, w)

abbrev net : Network (Dict Body)
net = record {
  exchange = exchange;
  clock = λ n. n;
  decode_token = λ s. some (lit "tok", pos 60);
  decode_role = λ s. some (lit "r1", lit "admin");
  decode_users = λ s. some [];
  decode_realms = λ s. some [];
}

abbrev holds : Dict Body → Text → Option Body
holds w u = lookup u w

net-Instances : (authorization : Text) → Instances net holds authorization
unfolding text_beq provider_rep
net-Instances authorization = record {
  posted = λ w url p h. rw h (
    (record { status = 201; location = lit "/clients/7"; body = [] }, refl, refl),
    λ u. lookup-insert (url ++ (b'/' ∷ path_escape p.alias)) u (provider_rep p) w,
  );
  conflict = λ w url p b h.
      rw h
        ((record { status = 409; location = lit "/clients/7"; body = [] }, refl, refl), λ u. refl);
  replaced = λ w url p b h. rw h (
    (record { status = 204; location = lit "/clients/7"; body = [] }, refl, refl),
    λ u. lookup-insert url u (provider_rep p) w,
  );
}

abbrev client : RestClient
client = record {
  base = lit "http://kc";
  admin_realm = lit "master";
  client_id = lit "cp";
  client_secret = lit "s3cret";
  token = lit "tok";
  exp = 100;
}

abbrev state : State (Dict Body)
state = record { client = client; outer = []; readings = 0; sent = [] }

abbrev okta : IdentityProvider
okta = record { alias = lit "okta"; provider_id = lit "oidc"; enabled = true; config = [] }

trimmed : (new_rest_client (lit "http://kc//") [] [] []).base ≡ lit "http://kc"
unfolding new_rest_client
trimmed = refl

escaped : path_escape (lit "a/b c") ≡ lit "a%2Fb%20c"
unfolding path_escape
escaped = refl

located :
    id_from_location (record { status = 201; location = lit "/clients/7"; body = [] }) ≡ lit "7"
unfolding id_from_location
located = refl

upsert_identity_provider-IsPut_example :
    IsPut net holds state
      (lit "acme")
      okta
      (net-Instances (lit "Bearer tok"))
      (refl, omega arith)
      (refl, omega arith)
      (upsert_identity_provider net state (lit "acme") okta)
upsert_identity_provider-IsPut_example =
    upsert_identity_provider-IsPut net holds state (lit "acme") okta
      (net-Instances (lit "Bearer tok")) (refl, omega arith) (refl, omega arith)

-- Two nanoseconds after the token was stored.
abbrev stored : State (Dict Body)
stored = record state { client = record client { exp = 30_000_000_000 }; readings = 2 }

access_token-IsLive_example :
    ((access_token net stored).0 ≡ ok (lit "tok")) × (2 + 30 * second < 0 + 60 * second)
unfolding store_token access_token
access_token-IsLive_example =
    access_token-IsLive net state stored (lit "tok") (pos 60) (omega arith) refl refl

names_differ : lit "acme" ≢ lit "evil"
unfolding text_beq
names_differ e = let t : false ≡ true = (text_eq_iff (lit "acme") (lit "evil")).1 e in cc

run_call-Isolates_example :
    Quiet net
      (lit "http://kc")
      (lit "acme")
      (lit "evil")
      (omega arith)
      (omega arith)
      names_differ
      (run_call net state (lit "acme") (assigns_role (lit "u1") (lit "admin")))
run_call-Isolates_example =
    run_call-Isolates net (lit "http://kc") (lit "acme") (lit "evil") (omega arith) (omega arith)
      names_differ state (assigns_role (lit "u1") (lit "admin")) (refl, tt)
