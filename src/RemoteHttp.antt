-- ===== src/RemoteHttp.antt =====
-- services/gateway/internal/remotehttp/client.go: the session of the gateway with a remote server. The
-- network is `exchange`, over its states, and JSON is `decode`; `sent` lists the requests, latest
-- first. The headers that tracing adds are left out.
pub mod Egress
mod Sessions
mod Dialing
mod Tests
use mcp_gateway_w.Prelude.{
  ℕ, ◌/◌, Bool, true, false, not, List, [], ◌∷◌, ◌++◌, Option, none, some, Text, lit, text_beq,
  nat_beq, trim_space, take, drop, if◌then◌else◌, is_empty,
}
use mcp_gateway_w.Prelude.Dict.{Dict}

pub record HttpRequest : Type 0 where
  pub url : Text
  pub header : Dict Text
  pub session : Text
  pub method : Text
  pub params : Text

-- The lines of an event stream, of which the last may have failed to be read, or one JSON document.
pub data Content : Type 0 where
  event_stream : List Text → Option Text → Content
  document : Text → Content

pub record HttpResponse : Type 0 where
  pub status : ℕ
  pub session : Text
  pub content : Content

pub data Exchanged : Type 0 where
  no_answer : Text → Exchanged
  answer : HttpResponse → Exchanged

pub record RpcResponse : Type 0 where
  pub result : Text
  pub error : Option Text

pub record World (W : Type 0) : Type 0 where
  pub exchange : W → HttpRequest → Exchanged × W
  pub decode : Text → Option RpcResponse

pub record Client : Type 0 where
  pub url : Text
  pub header : Dict Text
  pub session_id : Text
  pub inited : Bool

pub record State (W : Type 0) : Type 0 where
  pub client : Client
  pub outer : W
  pub sent : List HttpRequest

pub data Outcome : Type 0 where
  result : Text → Outcome
  session_expired : Outcome
  failed : Text → Outcome

-- What follows `data:` on a line, trimmed; other lines are empty.
unfoldable pub data_of : Text → Text
unfolding trim_space take drop
data_of line = if text_beq (take 5 line) (lit "data:") then trim_space (drop 5 line) else []

unfoldable pub stream_data : List Text → Text
unfolding data_of
stream_data [] = []
stream_data (line ∷ lines) = data_of line ++ stream_data lines

abbrev outcome_of_rpc : Option RpcResponse → Outcome
outcome_of_rpc none = failed (lit "decode")
outcome_of_rpc (some r) = elim r.error [ none ↦ result r.result | some msg ↦ failed msg ]

abbrev pub init_params : Text
init_params =
    lit
      "{\"protocolVersion\":\"2025-03-26\",\"capabilities\":{},\"clientInfo\":{\"name\":\"acme-mcp-gateway\",\"version\":\"0.1.0\"}}"

unfoldable pub reset : {W : Type 0} → State W → State W
reset st = record st { client = record st.client { inited = false; session_id = [] } }

module _ {W : Type 0} (net : World W) where
  -- `parseResponse`, and what `doRPC` makes of it.
  unfoldable pub parse_response : Content → Outcome
  unfolding stream_data
  parse_response (document body) = outcome_of_rpc (net.decode body)
  parse_response (event_stream lines none) = outcome_of_rpc (net.decode (stream_data lines))
  parse_response (event_stream lines (some msg)) = failed msg

  -- The outcome with the session header of the response.
  unfoldable pub outcome_of : Exchanged → Outcome × Text
  unfolding parse_response
  outcome_of (no_answer msg) = (failed msg, [])
  outcome_of (answer r) =
      if nat_beq r.status 404
      then (session_expired, r.session)
      else if not (nat_beq (r.status / 100) 2)
      then (failed (lit "status"), r.session)
      else (parse_response r.content, r.session)

  abbrev http_request : Client → Text → Text → HttpRequest
  http_request c method params = record {
    url = c.url;
    header = c.header;
    session = c.session_id;
    method = method;
    params = params;
  }

  unfoldable pub post : State W → Text → Text → Exchanged × State W
  post st method params =
      let req = http_request st.client method params in
      let (a, w) = net.exchange st.outer req in (a, record st { outer = w; sent = req ∷ st.sent })

  unfoldable pub do_rpc : State W → Text → Text → (Outcome × Text) × State W
  unfolding post outcome_of
  do_rpc st method params = let (a, st1) = post st method params in (outcome_of a, st1)

  unfoldable pub notify : State W → Text → State W
  unfolding post
  notify st method = (post st method []).1

  -- After the answer to `initialize`: `none`, or the error.
  unfoldable pub initialized : Outcome × Text → State W → Option Outcome × State W
  unfolding notify
  initialized (result r, sid) st =
      let c = st.client in
      let c1 : Client = record c {
        session_id = if is_empty sid then c.session_id else sid;
        inited = true;
      } in
      (none, notify (record st { client = c1 }) (lit "notifications/initialized"))
  initialized (session_expired, sid) st = (some session_expired, st)
  initialized (failed msg, sid) st = (some (failed msg), st)

  -- For a client that is initialized, or is not.
  unfoldable pub init_unless : Bool → State W → Option Outcome × State W
  unfolding initialized do_rpc
  init_unless true st = (none, st)
  init_unless false st =
      let (r, st1) = do_rpc st (lit "initialize") init_params in initialized r st1

  unfoldable pub ensure_init : State W → Option Outcome × State W
  unfolding init_unless
  ensure_init st = init_unless st.client.inited st

  -- One more call after the session was opened anew, or its error.
  unfoldable pub retried : Text → Text → Option Outcome × State W → Outcome × State W
  unfolding do_rpc
  retried method params (some e, st) = (e, st)
  retried method params (none, st) = let (r, st1) = do_rpc st method params in (r.0, st1)

  -- After the first call.
  unfoldable pub called : Text → Text → (Outcome × Text) × State W → Outcome × State W
  unfolding retried ensure_init reset
  called method params ((result r, sid), st) = (result r, st)
  called method params ((failed msg, sid), st) = (failed msg, st)
  called method params ((session_expired, sid), st) = retried method params (ensure_init (reset st))

  -- After the session was opened, or was not.
  unfoldable pub opened : Text → Text → Option Outcome × State W → Outcome × State W
  unfolding called do_rpc
  opened method params (some e, st) = (e, st)
  opened method params (none, st) = called method params (do_rpc st method params)

  unfoldable pub rpc : State W → Text → Text → Outcome × State W
  unfolding opened ensure_init
  rpc st method params = opened method params (ensure_init st)
