-- ===== src/RemoteHttp/Tests.antt =====
-- The remote client on small networks, and the theorems at concrete calls.
use mcp_gateway_w.Prelude.{
  ◌≡◌, refl, Bool, true, false, List, [], ◌∷◌, map, none, some, Text, lit, text_beq, take, drop,
  trim_space, trim_left, trim_right, All, if◌then◌else◌,
}
use mcp_gateway_w.RemoteHttp.{
  document, event_stream, answer, World, State, result, data_of, stream_data, parse_response,
  outcome_of, post, do_rpc, notify, initialized, init_unless, ensure_init, reset, retried, called,
  opened, rpc,
}
use mcp_gateway_w.RemoteHttp.Egress
use mcp_gateway_w.RemoteHttp.Egress.{
  Ip, v4, v6, is_loopback, is_private, is_link_local_unicast, is_link_local_multicast,
  is_interface_local_multicast, is_multicast, is_unspecified, is_blocked_ip, connected, Dialer,
  dial_ips, guarded_dial,
}
use mcp_gateway_w.RemoteHttp.Dialing.{IsPublic, IsPublicDial, guarded_dial-IsPublic}

runs : Unit {0}
unfolding text_beq take drop trim_space trim_left trim_right data_of stream_data parse_response
    outcome_of post do_rpc notify initialized init_unless ensure_init reset retried called opened
    rpc is_loopback is_private is_link_local_unicast is_link_local_multicast
    is_interface_local_multicast is_multicast is_unspecified is_blocked_ip dial_ips guarded_dial
runs = tt

-- The first call of a tool finds its session expired.
abbrev net : World Bool
net = record {
  exchange = λ fresh req.
      if text_beq req.method (lit "tools/list")
      then (
        answer (record {
          status = if fresh then 404 else 200;
          session = [];
          content = event_stream (lit "event: message" ∷ lit "data: ok" ∷ []) none;
        }),
        false,
      )
      else (answer (record { status = 200; session = lit "s1"; content = document [] }), fresh);
  decode = λ s. some (record { result = s; error = none });
}

abbrev fresh_start : State Bool
fresh_start = record {
  client = record { url = lit "https://x"; header = []; session_id = []; inited = false };
  outer = true;
  sent = [];
}

retried_once : (rpc net fresh_start (lit "tools/list") []).0 ≡ result (lit "ok")
unfolding runs
retried_once = refl

sessions :
    map (λ r. r.session) (rpc net fresh_start (lit "tools/list") []).1.sent
    ≡ lit "s1" ∷ lit "s1" ∷ [] ∷ lit "s1" ∷ lit "s1" ∷ [] ∷ []
unfolding runs
sessions = refl

-- A host that resolves to the metadata service and to a public address.
abbrev dialer : Dialer (List Text)
dialer = record {
  split_host_port = λ addr. some (addr, lit "443");
  lookup_ip = λ w host. some (some (v4 169 254 169 254) ∷ some (v4 8 8 8 8) ∷ []);
  dial = λ w ip port. (none, port ∷ w);
}

abbrev undialed : Egress.State (List Text)
undialed = record { outer = []; dials = [] }

public_only : (guarded_dial dialer undialed (lit "x")).0 ≡ connected (some (v4 8 8 8 8))
unfolding runs
public_only = refl

guarded_dial-IsPublic_example :
    All IsPublic (guarded_dial dialer undialed (lit "x")).1.dials
    × IsPublicDial (guarded_dial dialer undialed (lit "x")).0
guarded_dial-IsPublic_example = guarded_dial-IsPublic dialer undialed (lit "x") tt
