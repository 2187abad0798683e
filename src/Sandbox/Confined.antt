-- ===== src/Sandbox/Confined.antt =====
-- container.go: what `docker run` makes of the command line.
use mcp_gateway_w.Prelude.{
  ◌≡◌, refl, ap, Bool, false, ◌||◌, List, [], ◌∷◌, ◌++◌, Text, lit, text_beq, nat_beq,
  if◌then◌else◌,
}
use mcp_gateway_w.Sandbox.{
  Spec, ContainerRuntime, env_args, network_of, memory_of, pids_of, build_args,
}

-- Docker's reading of the arguments of `run`, for the options that `build_args` writes: options up to
-- the first argument that is none, which is the image, with the command behind it. An option has a
-- value, which may be any text, unless it is one of the three switches.
abbrev pub is_option : Text → Bool
is_option [] = false
is_option (a ∷ s) = nat_beq a b'-'

pub is_switch : Text → Bool
is_switch a = text_beq a (lit "-i") || text_beq a (lit "--rm") || text_beq a (lit "--read-only")

abbrev Parsed : Type 0
Parsed = List (Text × Text) × List Text

abbrev with_option : Text × Text → Parsed → Parsed
with_option o p = (o ∷ p.0, p.1)

pub parse_run : List Text → Parsed
unfolding is_switch
parse_run [] = ([], [])
parse_run (a ∷ []) = if is_option a then ((a, []) ∷ [], []) else ([], a ∷ [])
parse_run (a ∷ b ∷ rest) =
    let switch = parse_run (b ∷ rest) in
    let valued = parse_run rest in
    if is_option a
    then (if is_switch a then with_option (a, []) switch else with_option (a, b) valued)
    else ([], a ∷ b ∷ rest)

abbrev pub env_options : List Text → List (Text × Text)
env_options [] = []
env_options (e ∷ es) = (lit "-e", e) ∷ env_options es

abbrev pub runtime_options : Text → List (Text × Text)
runtime_options [] = []
runtime_options (a ∷ s) = (lit "--runtime", a ∷ s) ∷ []

-- The options that do not depend on what is run.
pub confinement : ContainerRuntime → List (Text × Text)
confinement r =
    (lit "-i", [])
    ∷ (lit "--rm", [])
    ∷ (runtime_options r.oci_runtime
        ++ ((lit "--network", network_of r)
            ∷ (lit "--memory", memory_of r)
            ∷ (lit "--pids-limit", pids_of r)
            ∷ (lit "--read-only", [])
            ∷ (lit "--tmpfs", lit "/tmp")
            ∷ (lit "--cap-drop", lit "ALL")
            ∷ (lit "--security-opt", lit "no-new-privileges")
            ∷ []))

parse_run-env :
    (es : List Text) (image command : Text) (args : List Text)
    → is_option image ≡ false
    → parse_run (env_args es ++ (image ∷ command ∷ args)) ≡ (env_options es, image ∷ command ∷ args)
unfolding parse_run env_args text_beq
parse_run-env [] image command args h = rw h refl
parse_run-env (e ∷ es) image command args h =
    ap (with_option (lit "-e", e)) (parse_run-env es image command args h)

abbrev pub without_run : List Text → List Text
without_run [] = []
without_run (a ∷ rest) = rest

-- With either kind of OCI runtime.
confined :
    (oci : Text) (r : ContainerRuntime) (spec : Spec)
    → is_option r.image ≡ false
    → let r' = record r { oci_runtime = oci } in
      parse_run (without_run (build_args r' spec))
      ≡ (confinement r' ++ env_options spec.env, r.image ∷ spec.command ∷ spec.args)
unfolding build_args confinement text_beq parse_run network_of memory_of pids_of
confined [] r spec h =
    ap (λ (p : Parsed). (confinement (record r { oci_runtime = [] }) ++ p.0, p.1))
      (parse_run-env spec.env r.image spec.command spec.args h)
confined (a ∷ t) r spec h =
    ap (λ (p : Parsed). (confinement (record r { oci_runtime = a ∷ t }) ++ p.0, p.1))
      (parse_run-env spec.env r.image spec.command spec.args h)

-- Docker reads the command line as the confinement, the environment and the image with its command:
-- nothing in a server's definition is read as an option, whatever texts it holds. The image's name
-- does not begin as an option's.
pub parse_run-build_args :
    (r : ContainerRuntime) (spec : Spec)
    → is_option r.image ≡ false
    → parse_run (without_run (build_args r spec))
      ≡ (confinement r ++ env_options spec.env, r.image ∷ spec.command ∷ spec.args)
parse_run-build_args r spec h = confined r.oci_runtime r spec h
