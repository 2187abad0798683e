-- ===== src/Sandbox.antt =====
-- services/gateway/internal/sandbox: container.go and exec.go, the command line of a container and the
-- choice of the runtime, and stdio.go, the connection with a process. Launching is an argument: the
-- identity of the new process, the lines that it will write until its output ends, and which writes
-- it takes. JSON is `Codec`.
mod Confined
mod Replies
mod Processes
mod Tests
use mcp_gateway_w.Prelude.{
  ℕ, suc, ◌+◌, Bool, true, false, not, ◌&&◌, ◌||◌, List, [], ◌∷◌, ◌++◌, Option, none, some, Text,
  lit, text_beq, nat_beq, is_empty, trim_space, if◌then◌else◌, ℤ, pos, negsuc,
}
use mcp_gateway_w.Audit.{decimal}

pub record Spec : Type 0 where
  pub command : Text
  pub args : List Text
  pub env : List Text

pub record ContainerRuntime : Type 0 where
  pub docker_bin : Text
  pub image : Text
  pub oci_runtime : Text
  pub network : Text
  pub memory : Text
  pub pids_limit : ℤ

pub data Runtime : Type 0 where
  container : ContainerRuntime → Runtime
  exec : Runtime

abbrev pub or_default : Text → Text → Text
or_default [] d = d
or_default (a ∷ s) d = a ∷ s

unfoldable pub bin : ContainerRuntime → Text
bin r = or_default r.docker_bin (lit "docker")

-- `strconv.Itoa`.
unfoldable pub itoa : ℤ → Text
unfolding decimal
itoa (pos n) = decimal n
itoa (negsuc n) = b'-' ∷ decimal (suc n)

unfoldable pub env_args : List Text → List Text
env_args [] = []
env_args (e ∷ es) = lit "-e" ∷ e ∷ env_args es

abbrev pub runtime_args : Text → List Text
runtime_args [] = []
runtime_args (a ∷ s) = lit "--runtime" ∷ (a ∷ s) ∷ []

unfoldable pub network_of : ContainerRuntime → Text
network_of r = or_default r.network (lit "none")

unfoldable pub memory_of : ContainerRuntime → Text
memory_of r = or_default r.memory (lit "512m")

unfoldable pub pids_of : ContainerRuntime → Text
unfolding itoa
pids_of r = elim r.pids_limit [
  | pos n ↦ if nat_beq n 0 then lit "256" else itoa (pos n)
  | negsuc n ↦ itoa (negsuc n)
]

unfoldable pub build_args : ContainerRuntime → Spec → List Text
unfolding env_args network_of memory_of pids_of
build_args r spec =
    lit "run"
    ∷ lit "-i"
    ∷ lit "--rm"
    ∷ (runtime_args r.oci_runtime
        ++ (lit "--network"
            ∷ network_of r
            ∷ lit "--memory"
            ∷ memory_of r
            ∷ lit "--pids-limit"
            ∷ pids_of r
            ∷ lit "--read-only"
            ∷ lit "--tmpfs"
            ∷ lit "/tmp"
            ∷ lit "--cap-drop"
            ∷ lit "ALL"
            ∷ lit "--security-opt"
            ∷ lit "no-new-privileges"
            ∷ (env_args spec.env ++ (r.image ∷ spec.command ∷ spec.args))))

abbrev in_container : Text → Text → Text → Runtime
in_container image oci network = container (record {
  docker_bin = [];
  image = image;
  oci_runtime = oci;
  network = network;
  memory = [];
  pids_limit = pos 0;
})

-- `Select`.
unfoldable pub select_runtime : Text → Text → Text → Runtime
select_runtime name image network =
    if text_beq name (lit "gvisor")
    then in_container image (lit "runsc") network
    else if text_beq name (lit "kata")
    then in_container image (lit "kata") network
    else if text_beq name (lit "runc") || text_beq name (lit "container")
    then in_container image (lit "runc") network
    else exec

pub record Reply : Type 0 where
  pub id : Text
  pub result : Text
  pub error : Option Text

pub record Codec (T : Type 0) : Type 0 where
  pub decode : Text → Option Reply
  pub decode_tools : Text → Option (List T)
  -- The parameters of `tools/call`, of a name and its arguments.
  pub encode_call : Text → Text → Text

pub data Message : Type 0 where
  request : (id : ℕ) (method params : Text) → Message
  notification : (method : Text) → Message

-- A connection: the lines to come, which messages are taken, and what was written, latest first.
pub record Conn : Type 0 where
  pub id : ℕ
  pub lines : List Text
  pub takes : ℕ → Bool
  pub written : List Message

pub data Called : Type 0 where
  result : Text → Called
  failed : Text → Called

abbrev error_of : Reply → Called
error_of r = elim r.error [ none ↦ result r.result | some msg ↦ failed msg ]

-- A line is passed over, or it is the reply that is waited for.
unfoldable pub reply_in : Text → Option Reply → Option Reply
unfolding trim_space
reply_in want none = none
reply_in want (some r) =
    if is_empty r.id then none else if text_beq (trim_space r.id) want then some r else none

unfoldable pub notify : Conn → Text → Conn
notify c method = record c { written = notification method ∷ c.written }

-- A launched process.
pub record Launched : Type 0 where
  pub process : ℕ
  pub lines : List Text
  pub takes : ℕ → Bool

-- `running` are the processes that were started and not stopped.
pub record Server : Type 0 where
  pub inst : Option ℕ
  pub conn : Option Conn
  pub inited : Bool
  pub running : List ℕ

abbrev new_server : Server
new_server = record { inst = none; conn = none; inited = false; running = [] }

unfoldable pub stop : ℕ → List ℕ → List ℕ
stop p [] = []
stop p (q ∷ qs) = let rest = stop p qs in if nat_beq p q then rest else q ∷ rest

abbrev init_params : Text
init_params =
    lit
      "{\"protocolVersion\":\"2025-03-26\",\"capabilities\":{},\"clientInfo\":{\"name\":\"acme-mcp-gateway\",\"version\":\"0.1.0\"}}"

-- After the answer to `initialize`.
unfoldable pub initialized : Server → ℕ → Called × Conn → Option Text × Server
unfolding notify stop
initialized s p (failed msg, c) = (some msg, record s { running = stop p (p ∷ s.running) })
initialized s p (result r, c) = (
  none,
  record {
    inst = some p;
    conn = some (notify c (lit "notifications/initialized"));
    inited = true;
    running = p ∷ s.running;
  },
)

abbrev new_conn : Launched → Conn
new_conn l = record { id = 0; lines = l.lines; takes = l.takes; written = [] }

pub data Outcome : Type 0 where
  answered : Called → Outcome
  panicked : Outcome

pub data Tools (T : Type 0) : Type 0 where
  tools : List T → Tools T
  no_tools : Text → Tools T
  tools_panicked : Tools T

unfoldable pub close : Server → Server
unfolding stop
close s = elim s.inst [
  | none ↦ s
  | some p ↦ record { inst = none; conn = none; inited = false; running = stop p s.running }
]

module _ {T : Type 0} (json : Codec T) where
  -- The loop of `call`, with what is left of the lines.
  unfoldable pub read_reply : Text → List Text → Called × List Text
  unfolding reply_in
  read_reply want [] = (failed (lit "EOF"), [])
  read_reply want (line ∷ lines) = elim (reply_in want (json.decode line)) [
    | none ↦ read_reply want lines
    | some r ↦ (error_of r, lines)
  ]

  unfoldable pub call : Conn → Text → Text → Called × Conn
  unfolding read_reply decimal
  call c method params =
      let n = suc c.id in
      let c1 : Conn = record c { id = n } in
      let (answer, rest) = read_reply (decimal n) c.lines in
      if c.takes n
      then (answer, record c1 { lines = rest; written = request n method params ∷ c.written })
      else (failed (lit "write"), c1)

  -- A launch answers `none` where it fails. The answer is an error, or `none`.
  unfoldable pub ensure : Server → Option Launched → Option Text × Server
  unfolding initialized call
  ensure s launched = if s.inited then (none, s) else elim launched [
    | none ↦ (some (lit "launch"), s)
    | some l ↦ initialized s l.process (call (new_conn l) (lit "initialize") init_params)
  ]

  -- The call that follows `ensure`, outside the lock: a connection that is gone is a nil pointer.
  unfoldable pub call_conn : Server → Text → Text → Outcome × Server
  unfolding call
  call_conn s method params = elim s.conn [
    | none ↦ (panicked, s)
    | some c ↦ let (a, c1) = call c method params in (answered a, record s { conn = some c1 })
  ]

  unfoldable pub call_tool : Server → Option Launched → Text → Text → Outcome × Server
  unfolding ensure call_conn
  call_tool s launched name args =
      let (e, s1) = ensure s launched in
      elim e [
        | some msg ↦ (answered (failed msg), s1)
        | none ↦
            call_conn s1 (lit "tools/call") (json.encode_call name (or_default args (lit "{}")))
      ]

  unfoldable pub tools_of : Outcome → Tools T
  tools_of panicked = tools_panicked
  tools_of (answered (failed msg)) = no_tools msg
  tools_of (answered (result r)) = elim (json.decode_tools r) [
    | none ↦ no_tools (lit "decode")
    | some ts ↦ tools ts
  ]

  unfoldable pub list_tools : Server → Option Launched → Tools T × Server
  unfolding ensure call_conn tools_of
  list_tools s launched =
      let (e, s1) = ensure s launched in
      elim e [
        | some msg ↦ (no_tools msg, s1)
        | none ↦ let (o, s2) = call_conn s1 (lit "tools/list") [] in (tools_of o, s2)
      ]
