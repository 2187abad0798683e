-- ===== src/Idp/Rest.antt =====
-- services/control-plane/internal/idp/rest.go: the client of the identity provider's admin API, its
-- cached token and the single retry. The network is `exchange`, over its states, and JSON is the
-- decoders; `sent` lists the requests, latest first, and a request that cannot be built counts as one
-- without an answer. Times are nanoseconds. One call runs at a time.
pub mod Api
mod Sends
mod Tokens
mod Paths
mod Upsert
mod Tests
use mcp_gateway_w.Prelude.{
  ℕ, suc, ◌+◌, ◌-◌, ◌*◌, Bool, true, false, not, ◌&&◌, List, [], ◌∷◌, ◌++◌, Option, none, some,
  Text, lit, nat_beq, ltb, if◌then◌else◌, is_empty, trim_space, take, ℤ, pos_part,
}
use mcp_gateway_w.Prelude.Dict.{Dict}
use mcp_gateway_w.Audit.{decimal}
use mcp_gateway_w.Idp.{Answer, ok, failed}
use mcp_gateway_w.Idp.Escape.{path_escape}

pub data Json : Type 0 where
  text : Text → Json
  boolean : Bool → Json
  number : ℕ → Json
  texts : List Text → Json
  object : Dict Text → Json

-- One object, or the list of one.
pub data Body : Type 0 where
  fields : Dict Json → Body
  one_of : Dict Json → Body

pub data Request : Type 0 where
  token_request : (url client_id client_secret : Text) → Request
  admin_request : (method url authorization : Text) → Option Body → Request

pub record Response : Type 0 where
  pub status : ℕ
  pub location : Text
  pub body : Text

pub data Exchanged : Type 0 where
  no_answer : Text → Exchanged
  answer : Response → Exchanged

pub record Network (W : Type 0) : Type 0 where
  pub exchange : W → Request → Exchanged × W
  pub clock : ℕ → ℕ
  pub decode_token : Text → Option (Text × ℤ)
  pub decode_role : Text → Option (Text × Text)
  pub decode_users : Text → Option (List Text)
  pub decode_realms : Text → Option (List Text)

pub record RestClient : Type 0 where
  pub base : Text
  pub admin_realm : Text
  pub client_id : Text
  pub client_secret : Text
  pub token : Text
  pub exp : ℕ

pub record State (W : Type 0) : Type 0 where
  pub client : RestClient
  pub outer : W
  pub readings : ℕ
  pub sent : List Request

-- `strings.TrimRight(base, "/")`.
unfoldable pub trim_slashes : Text → Text
trim_slashes [] = []
trim_slashes (b ∷ s) =
    let rest = trim_slashes s in if is_empty rest && nat_beq b b'/' then [] else b ∷ rest

unfoldable pub new_rest_client : Text → Text → Text → Text → RestClient
unfolding trim_slashes
new_rest_client base admin_realm client_id client_secret = record {
  base = trim_slashes base;
  admin_realm = admin_realm;
  client_id = client_id;
  client_secret = client_secret;
  token = [];
  exp = 0;
}

unfoldable pub api_err : Text → Response → Text
unfolding decimal trim_space take
api_err op resp =
    lit "keycloak "
    ++ (op
        ++ (lit ": status "
            ++ (decimal resp.status ++ (lit ": " ++ trim_space (take 2048 resp.body)))))

abbrev pub token_url : RestClient → Text
token_url c =
    c.base
    ++ (lit "/realms/" ++ (path_escape c.admin_realm ++ lit "/protocol/openid-connect/token"))

-- `ExpiresIn - 30`, or 5 where that is less.
unfoldable pub ttl : ℤ → ℕ
ttl expires_in = if ltb (pos_part expires_in) 35 then 5 else pos_part expires_in - 30

abbrev pub second : ℕ
second = 1_000_000_000

unfoldable pub invalidate : {W : Type 0} → State W → State W
invalidate st = record st { client = record st.client { token = []; exp = 0 } }

module _ {W : Type 0} (net : Network W) where
  abbrev pub now : State W → ℕ
  now st = net.clock st.readings

  unfoldable pub send : State W → Request → Exchanged × State W
  send st req =
      let (a, w) = net.exchange st.outer req in (a, record st { outer = w; sent = req ∷ st.sent })

  -- The token that a response brings is stored with the time at which it is to be renewed.
  unfoldable pub store_token : State W → Option (Text × ℤ) → Answer Text × State W
  unfolding ttl
  store_token st none = (failed (lit "decode"), st)
  store_token st (some (tok, expires_in)) = (
    ok tok,
    record st {
      client = record st.client { token = tok; exp = now st + ttl expires_in * second };
      readings = suc st.readings;
    },
  )

  unfoldable pub token_answered : Exchanged → State W → Answer Text × State W
  unfolding store_token api_err
  token_answered (no_answer msg) st = (failed msg, st)
  token_answered (answer r) st =
      if not (nat_beq r.status 200)
      then (failed (api_err (lit "admin token") r), st)
      else store_token st (net.decode_token r.body)

  unfoldable pub fetch_token : State W → Answer Text × State W
  unfolding token_answered send
  fetch_token st =
      let c = st.client in
      let (a, st1) = send st (token_request (token_url c) c.client_id c.client_secret) in
      token_answered a st1

  -- The clock is read if there is a token.
  unfoldable pub access_token : State W → Answer Text × State W
  unfolding fetch_token
  access_token st =
      if is_empty st.client.token
      then fetch_token st
      else let st1 : State W = record st { readings = suc st.readings } in
        if ltb (now st) st.client.exp then (ok st.client.token, st1) else fetch_token st1

  unfoldable pub with_token :
      Text → Text → Option Body → Answer Text × State W → Exchanged × State W
  unfolding send
  with_token method path body (failed msg, st) = (no_answer msg, st)
  with_token method path body (ok tok, st) =
      send st (admin_request method (st.client.base ++ path) (lit "Bearer " ++ tok) body)

  unfoldable pub do_once : State W → Text → Text → Option Body → Exchanged × State W
  unfolding with_token access_token
  do_once st method path body = with_token method path body (access_token st)

  -- After the first request: once more, with a new token, where it was forbidden.
  unfoldable pub retried : Text → Text → Option Body → Exchanged × State W → Exchanged × State W
  unfolding do_once invalidate
  retried method path body (no_answer msg, st) = (no_answer msg, st)
  retried method path body (answer r, st) =
      if nat_beq r.status 403 then do_once (invalidate st) method path body else (answer r, st)

  unfoldable pub do_request : State W → Text → Text → Option Body → Exchanged × State W
  unfolding retried do_once
  do_request st method path body = retried method path body (do_once st method path body)
