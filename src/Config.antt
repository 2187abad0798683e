-- ===== src/Config.antt =====
-- pkg/config/config.go: the configuration, read from the environment. `lookup_env` is the process's
-- environment and `parse_duration` is `time.ParseDuration`; durations are nanoseconds.
mod Production
mod Tests
use mcp_gateway_w.Prelude.{
  ℕ, Bool, true, false, not, ◌||◌, List, [], ◌∷◌, ◌++◌, Option, none, some, Text, lit, text_beq,
  is_empty, equal_fold, if◌then◌else◌, ℤ, pos,
}
use mcp_gateway_w.Audit.Archive.{parse_int}

pub record Os : Type 0 where
  pub lookup_env : Text → Option Text
  pub parse_duration : Text → Option ℤ

pub record Config : Type 0 where
  pub env : Text
  pub http_addr : Text
  pub base_domain : Text
  pub shutdown_timeout : ℤ
  pub log_level : Text
  pub log_format : Text
  pub postgres_dsn : Text
  pub redis_addr : Text
  pub vault_addr : Text
  pub vault_token : Text
  pub keycloak_issuer_template : Text
  pub admin_audience : Text
  pub resource_template : Text
  pub sandbox_runtime : Text
  pub sandbox_image : Text
  pub sandbox_egress_network : Text
  pub rate_org_per_min : ℤ
  pub rate_user_per_min : ℤ
  pub otlp_endpoint : Text
  pub audit_s3_endpoint : Text
  pub audit_s3_access_key : Text
  pub audit_s3_secret_key : Text
  pub audit_s3_bucket : Text
  pub audit_s3_use_ssl : Bool
  pub audit_retention : ℤ
  pub block_private_egress : Bool
  pub audit_deny_per_min : ℤ
  pub console_origins : Text
  pub keycloak_admin_url : Text
  pub keycloak_admin_client_id : Text
  pub keycloak_admin_secret_ref : Text
  pub keycloak_admin_secret : Text
  pub platform_realm : Text
  pub platform_audience : Text
  pub tenant_reserved_slugs : Text
  pub audit_retention_days : ℤ
  pub tenant_ceiling : ℤ

-- A variable that is set and not empty.
unfoldable pub set_value : Os → Text → Option Text
set_value o key = elim (o.lookup_env key) [
  | none ↦ none
  | some v ↦ if is_empty v then none else some v
]

unfoldable pub get_env : Os → Text → Text → Text
unfolding set_value
get_env o key def = elim (set_value o key) [ none ↦ def | some v ↦ v ]

-- A value that does not parse is the default's.
abbrev pub parsed {ℓ} : {A : Type ℓ} → (Text → Option A) → A → Option Text → A
parsed parse def none = def
parsed parse def (some v) = elim (parse v) [ none ↦ def | some x ↦ x ]

unfoldable pub get_duration : Os → Text → ℤ → ℤ
unfolding set_value
get_duration o key def = parsed o.parse_duration def (set_value o key)

-- `strconv.Atoi` reads what `strconv.ParseInt` does.
unfoldable pub get_int : Os → Text → ℤ → ℤ
unfolding set_value parse_int
get_int o key def = parsed parse_int def (set_value o key)

abbrev is_one_of : List Text → Text → Bool
is_one_of [] s = false
is_one_of (t ∷ ts) s = text_beq t s || is_one_of ts s

-- `strconv.ParseBool`.
unfoldable pub parse_bool : Text → Option Bool
parse_bool s =
    if is_one_of (lit "1" ∷ lit "t" ∷ lit "T" ∷ lit "true" ∷ lit "TRUE" ∷ lit "True" ∷ []) s
    then some true
    else if is_one_of (lit "0" ∷ lit "f" ∷ lit "F" ∷ lit "false" ∷ lit "FALSE" ∷ lit "False" ∷ []) s
    then some false
    else none

unfoldable pub get_bool : Os → Text → Bool → Bool
unfolding set_value parse_bool
get_bool o key def = parsed parse_bool def (set_value o key)

unfoldable pub load : Os → Config
unfolding get_env get_duration get_int get_bool
load o =
    let env = get_env o (lit "MCP_ENV") (lit "dev") in
    record {
      env = env;
      http_addr = get_env o (lit "MCP_HTTP_ADDR") (lit ":8080");
      base_domain = get_env o (lit "MCP_BASE_DOMAIN") (lit "mcp.example.com");
      shutdown_timeout = get_duration o (lit "MCP_SHUTDOWN_TIMEOUT") (pos 15000000000);
      log_level = get_env o (lit "MCP_LOG_LEVEL") (lit "info");
      log_format = get_env o (lit "MCP_LOG_FORMAT") (lit "console");
      postgres_dsn = get_env o (lit "MCP_POSTGRES_DSN") [];
      redis_addr = get_env o (lit "MCP_REDIS_ADDR") (lit "localhost:6379");
      vault_addr = get_env o (lit "MCP_VAULT_ADDR") [];
      vault_token = get_env o (lit "MCP_VAULT_TOKEN") [];
      keycloak_issuer_template =
          get_env o (lit "MCP_KEYCLOAK_ISSUER_TEMPLATE")
            (lit "https://auth.mcp.example.com/realms/%s");
      admin_audience = get_env o (lit "MCP_ADMIN_AUDIENCE") (lit "https://api.mcp.example.com");
      resource_template = get_env o (lit "MCP_RESOURCE_TEMPLATE") [];
      sandbox_runtime = get_env o (lit "MCP_SANDBOX_RUNTIME") (lit "gvisor");
      sandbox_image = get_env o (lit "MCP_SANDBOX_IMAGE") (lit "acme/mcp-sandbox:dev");
      sandbox_egress_network = get_env o (lit "MCP_SANDBOX_EGRESS_NETWORK") [];
      rate_org_per_min = get_int o (lit "MCP_RATE_ORG_PER_MIN") (pos 0);
      rate_user_per_min = get_int o (lit "MCP_RATE_USER_PER_MIN") (pos 0);
      otlp_endpoint = get_env o (lit "MCP_OTLP_ENDPOINT") [];
      audit_s3_endpoint = get_env o (lit "MCP_AUDIT_S3_ENDPOINT") [];
      audit_s3_access_key = get_env o (lit "MCP_AUDIT_S3_ACCESS_KEY") [];
      audit_s3_secret_key = get_env o (lit "MCP_AUDIT_S3_SECRET_KEY") [];
      audit_s3_bucket = get_env o (lit "MCP_AUDIT_S3_BUCKET") (lit "mcp-audit");
      audit_s3_use_ssl = get_bool o (lit "MCP_AUDIT_S3_USE_SSL") false;
      audit_retention = get_duration o (lit "MCP_AUDIT_RETENTION") (pos 31536000000000000);
      block_private_egress =
          get_bool o (lit "MCP_BLOCK_PRIVATE_EGRESS") (equal_fold env (lit "prod"));
      audit_deny_per_min = get_int o (lit "MCP_AUDIT_DENY_PER_MIN") (pos 600);
      console_origins = get_env o (lit "MCP_CONSOLE_ORIGINS") [];
      keycloak_admin_url = get_env o (lit "MCP_KEYCLOAK_ADMIN_URL") (lit "http://localhost:8081");
      keycloak_admin_client_id = get_env o (lit "MCP_KEYCLOAK_ADMIN_CLIENT_ID") [];
      keycloak_admin_secret_ref = get_env o (lit "MCP_KEYCLOAK_ADMIN_SECRET_REF") [];
      keycloak_admin_secret = get_env o (lit "MCP_KEYCLOAK_ADMIN_SECRET") [];
      platform_realm = get_env o (lit "MCP_PLATFORM_REALM") (lit "_platform");
      platform_audience = get_env o (lit "MCP_PLATFORM_AUDIENCE") [];
      tenant_reserved_slugs =
          get_env o (lit "MCP_TENANT_RESERVED_SLUGS") (lit "www,api,admin,auth,app");
      audit_retention_days = get_int o (lit "MCP_AUDIT_RETENTION_DAYS") (pos 365);
      tenant_ceiling = get_int o (lit "MCP_TENANT_CEILING") (pos 200);
    }

-- `Get` loads once.
unfoldable pub get_config : Option Config → Os → Config × Option Config
unfolding load
get_config none o = (load o, some (load o))
get_config (some c) o = (c, some c)

unfoldable pub is_prod : Config → Bool
unfolding equal_fold
is_prod c = equal_fold c.env (lit "prod")

unfoldable pub missing : Config → List Text
missing c =
    (if is_empty c.postgres_dsn then lit "MCP_POSTGRES_DSN" ∷ [] else [])
    ++ (if is_empty c.vault_addr then lit "MCP_VAULT_ADDR" ∷ [] else [])

unfoldable pub join : List Text → Text
join [] = []
join (s ∷ []) = s
join (s ∷ t ∷ ts) = s ++ (lit ", " ++ join (t ∷ ts))

abbrev missing_error : List Text → Option Text
missing_error [] = none
missing_error (s ∷ ts) = some (lit "missing required config in prod: " ++ join (s ∷ ts))

-- `none`, or the error.
unfoldable pub validate_config : Config → Option Text
unfolding is_prod missing join
validate_config c = if not (is_prod c) then none else missing_error (missing c)
