-- ===== src/Sandbox/Tests.antt =====
-- A container's command line, and a server on a small process.
use mcp_gateway_w.Prelude.{
  ℕ, ◌≡◌, ◌≢◌, refl, true, [], ◌∷◌, ◌++◌, Option, none, some, lit, text_beq, pos,
}
use mcp_gateway_w.Audit.{decimal}
use mcp_gateway_w.Sandbox.{
  Spec, ContainerRuntime, container, exec, build_args, select_runtime, Reply, reply_in, Codec, Conn,
  call, Launched, new_server, panicked, call_tool,
}
use mcp_gateway_w.Sandbox.Confined.{
  parse_run, confinement, env_options, without_run, parse_run-build_args,
}
use mcp_gateway_w.Sandbox.Replies.{Answers, call-Own}
use mcp_gateway_w.Sandbox.Processes.{calls, closes, run, IsTidy, run-IsTidy}

abbrev gvisor : ContainerRuntime
gvisor = record {
  docker_bin = [];
  image = lit "img";
  oci_runtime = lit "runsc";
  network = [];
  memory = [];
  pids_limit = pos 0;
}

-- A definition that tries to pass options.
abbrev spec : Spec
spec = record {
  command = lit "--privileged";
  args = lit "--network" ∷ lit "host" ∷ [];
  env = lit "--privileged" ∷ [];
}

selected : select_runtime (lit "gvisor") (lit "img") [] ≡ container gvisor
unfolding select_runtime text_beq
selected = refl

fallback : select_runtime (lit "gvizor") (lit "img") [] ≡ exec
unfolding select_runtime text_beq
fallback = refl

parse_run-build_args_example : parse_run (without_run (build_args gvisor spec)) ≡ (
  confinement gvisor ++ env_options spec.env,
  lit "img" ∷ lit "--privileged" ∷ lit "--network" ∷ lit "host" ∷ [],
)
parse_run-build_args_example = parse_run-build_args gvisor spec refl

-- A line is the number of the call that it answers.
abbrev json : Codec ℕ
json = record {
  decode = λ s. some (record { id = s; result = lit "ok"; error = none });
  decode_tools = λ s. some [];
  encode_call = λ name args. name;
}

abbrev launched : Launched
launched = record { process = 7; lines = lit "log" ∷ lit "1" ∷ lit "2" ∷ []; takes = λ n. true }

abbrev conn : Conn
conn = record { id = 1; lines = lit "1" ∷ lit "2" ∷ []; takes = λ n. true; written = [] }

call-Own_example :
    Answers json (decimal 2) conn.lines (lit "ok") (call json conn (lit "tools/list") []).1.lines
    × ((m : ℕ) (o : Option Reply) (r r' : Reply)
        → reply_in (decimal 2) o ≡ some r
        → reply_in (decimal m) o ≡ some r'
        → m ≡ 2)
unfolding call text_beq
call-Own_example = call-Own json conn (lit "tools/list") [] (lit "ok") refl

run-IsTidy_example :
    let s = run json new_server (calls (some launched) [] [] ∷ closes ∷ []) in
    IsTidy s × ((call_tool json s (some launched) [] []).0 ≢ panicked)
run-IsTidy_example =
    run-IsTidy json (calls (some launched) [] [] ∷ closes ∷ []) (some launched) [] []
