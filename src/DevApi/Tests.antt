-- ===== src/DevApi/Tests.antt =====
-- The listing over the client of the admin API.
use mcp_gateway_w.Prelude.{◌≡◌, refl, List, [], ◌∷◌, none, some, Text, lit, text_beq, pos}
use mcp_gateway_w.Idp.Rest.{answer, Network, State}
use mcp_gateway_w.Idp.Rest.Api.{list_realms}
use mcp_gateway_w.DevApi.{orgs, list_orgs}

abbrev realms : List Text
realms = lit "zeta" ∷ lit "master" ∷ [] ∷ lit "acme" ∷ []

-- An identity provider that answers every request, and lists four realms.
abbrev net : Network (Unit {0})
net = record {
  exchange = λ w q. (answer (record { status = 200; location = []; body = [] }), w);
  clock = λ n. n;
  decode_token = λ s. some (lit "tok", pos 60);
  decode_role = λ s. none;
  decode_users = λ s. none;
  decode_realms = λ s. some realms;
}

abbrev state : State (Unit {0})
state = record {
  client = record {
    base = lit "http://kc";
    admin_realm = lit "master";
    client_id = lit "cp";
    client_secret = lit "s3cret";
    token = [];
    exp = 0;
  };
  outer = tt;
  readings = 0;
  sent = [];
}

listed : (list_orgs (some (list_realms net)) state).0 ≡ orgs (lit "acme" ∷ lit "zeta" ∷ [])
unfolding list_orgs list_realms text_beq
listed = refl

unconfigured : (list_orgs none state).0 ≡ orgs []
unfolding list_orgs
unconfigured = refl
