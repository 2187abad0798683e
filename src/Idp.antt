-- ===== src/Idp.antt =====
-- services/control-plane/internal/idp/keycloak.go and bootstrap.go: what a tenant's realm is made of,
-- and the operations of the identity provider that the control plane uses. The provider itself is
-- behind `Keycloak`, over a type of its states; `none` in place of an error message is success.
pub mod Escape
pub mod Rest
use mcp_gateway_w.Prelude.{ℕ, Bool, true, false, List, [], ◌∷◌, ◌++◌, Option, Text, lit}
use mcp_gateway_w.Prelude.Dict.{Dict}

pub record Realm : Type 0 where
  pub name : Text
  pub enabled : Bool
  pub access_token_lifespan : ℕ
  pub sso_idle : ℕ
  pub sso_max : ℕ
  pub ssl_required : Text

pub record Client : Type 0 where
  pub client_id : Text
  pub name : Text
  pub public_client : Bool
  pub standard_flow : Bool
  pub direct_grants : Bool
  pub redirect_uris : List Text
  pub web_origins : List Text
  pub attributes : Dict Text

pub record ProtocolMapper : Type 0 where
  pub name : Text
  pub mapper : Text
  pub config : Dict Text

pub record User : Type 0 where
  pub username : Text
  pub email : Text
  pub enabled : Bool
  pub required_actions : List Text

pub data Answer (A : Type 0) : Type 0 where
  ok : A → Answer A
  failed : Text → Answer A

pub record Keycloak (W : Type 0) : Type 0 where
  pub realm_exists : W → Text → Answer Bool
  pub create_realm : W → Realm → Option Text × W
  pub set_realm_enabled : W → Text → Bool → Option Text × W
  pub delete_realm : W → Text → Option Text × W
  pub create_client : W → Text → Client → Answer Text × W
  pub add_protocol_mapper : W → Text → Text → ProtocolMapper → Option Text × W
  pub create_realm_role : W → Text → Text → Option Text × W
  pub create_user : W → Text → User → Answer Text × W
  pub assign_realm_role : W → Text → Text → Text → Option Text × W

pub record BootstrapParams : Type 0 where
  pub slug : Text
  pub display_name : Text
  pub admin_email : Text
  pub console_origin : Text
  pub admin_audience : Text
  pub mcp_resource : Text
  pub access_ttl : ℕ
  pub sso_idle : ℕ
  pub sso_max : ℕ
  pub ssl_required : Text

pub record BootstrapSpec : Type 0 where
  pub realm : Realm
  pub console_client : Client
  pub console_mappers : List ProtocolMapper
  pub mcp_client : Client
  pub mcp_mappers : List ProtocolMapper
  pub admin_role : Text
  pub admin_user : User

unfoldable pub build_bootstrap_spec : BootstrapParams → BootstrapSpec
build_bootstrap_spec p = record {
  realm = record {
    name = p.slug;
    enabled = true;
    access_token_lifespan = p.access_ttl;
    sso_idle = p.sso_idle;
    sso_max = p.sso_max;
    ssl_required = p.ssl_required;
  };
  console_client = record {
    client_id = lit "mcp-admin-console";
    name = lit "MCP Admin Console";
    public_client = true;
    standard_flow = true;
    direct_grants = false;
    redirect_uris = (p.console_origin ++ lit "/*") ∷ [];
    web_origins = p.console_origin ∷ [];
    attributes =
        (lit "pkce.code.challenge.method", lit "S256")
        ∷ (lit "post.logout.redirect.uris", p.console_origin ++ lit "/*")
        ∷ [];
  };
  console_mappers =
      record {
        name = lit "admin-api-audience";
        mapper = lit "oidc-audience-mapper";
        config =
            (lit "included.custom.audience", p.admin_audience)
            ∷ (lit "access.token.claim", lit "true")
            ∷ (lit "id.token.claim", lit "false")
            ∷ [];
      }
      ∷ record {
        name = lit "realm-roles-id";
        mapper = lit "oidc-usermodel-realm-role-mapper";
        config =
            (lit "claim.name", lit "realm_access.roles")
            ∷ (lit "jsonType.label", lit "String")
            ∷ (lit "multivalued", lit "true")
            ∷ (lit "id.token.claim", lit "true")
            ∷ (lit "access.token.claim", lit "true")
            ∷ (lit "userinfo.token.claim", lit "true")
            ∷ [];
      }
      ∷ [];
  mcp_client = record {
    client_id = lit "mcp-client";
    name = lit "MCP Client";
    public_client = true;
    standard_flow = true;
    direct_grants = true;
    redirect_uris = lit "http://localhost:*" ∷ lit "http://127.0.0.1:*" ∷ [];
    web_origins = lit "+" ∷ [];
    attributes = (lit "pkce.code.challenge.method", lit "S256") ∷ [];
  };
  mcp_mappers =
      record {
        name = lit "mcp-resource-audience";
        mapper = lit "oidc-audience-mapper";
        config =
            (lit "included.custom.audience", p.mcp_resource)
            ∷ (lit "access.token.claim", lit "true")
            ∷ (lit "id.token.claim", lit "false")
            ∷ [];
      }
      ∷ [];
  admin_role = lit "admin";
  admin_user = record {
    username = p.admin_email;
    email = p.admin_email;
    enabled = true;
    required_actions = lit "UPDATE_PASSWORD" ∷ [];
  };
}
