-- ===== src/Lib.antt =====
-- A verification library of the multi-tenant MCP gateway: the data plane (services/gateway), the
-- control plane (services/control-plane), the sandbox supervisor (services/sandbox-supervisor) and
-- the packages that they share (pkg).
--
-- The gateway authenticates a request for one organization, limits its rate, lists and calls the
-- tools of that organization's downstream servers, and follows the changes that the control plane
-- publishes. The control plane keeps tenants, server definitions, invitations and directory
-- connections; it drives the identity provider over its REST interface. The supervisor keeps a pool of
-- sandbox instances.
--
-- Which file models which part:
-- * Pool.antt (Pool/Size, Owned, Reap): sandbox-supervisor/internal/pool/pool.go; `Pool` is the
--   struct, `acquire`, `release`, `reap`, `prewarm` and `close` its methods.
-- * Quota.antt (Quota/Window, Isolation): gateway/internal/quota/quota.go; `allow` is
--   WindowLimiter.Allow, `enforce` is Enforcer.Allow. Quota/Redis.antt (Quota/Redis/Keys, Shared):
--   gateway/internal/quota/redis.go; `redis_allow` is RedisLimiter.Allow, `incr_expire` its script.
-- * Aggregate.antt (Aggregate/Names, Surface): gateway/internal/aggregate/aggregate.go, and the
--   `strings.Cut` by which handler.go takes a name apart (`cut`).
-- * Downstream.antt (Downstream/Access, Cache, Kept, Removed):
--   gateway/internal/downstream/downstream.go; `Registry` and `Catalog` with one function for each
--   method, GetForUser in two locked sections.
-- * Mcp.antt (Mcp/Calls, Collected, Hidden, Isolation, Replies, Listing): gateway/internal/mcp/jsonrpc.go and
--   handler.go; `dispatch` is Handler.Dispatch, `tools_call` Handler.toolsCall, `list_all`
--   Handler.aggregate.
-- * Audit.antt (Audit/Contents, Chain, Records): pkg/audit/audit.go; `append_record`,
--   `list_records` and `verify` are the methods of MemLogger, `preimage` is what hashRecord hashes.
--   Audit/Archive.antt: pkg/audit/s3.go; `record_event`, `list_archived` and `verify_archived` are
--   the methods of S3Archive, `load_tip` is loadTip; Audit/Keys is about the keys of the objects,
--   Sorting, Objects, Recovery and Restarts about the archive.
-- * Authz.antt (Authz/Binding): pkg/authz/authz.go and jwt.go; `validate`, `validate_for_org` and
--   `validate_for_realm` are the methods of JWTValidator, `org_from_host` is OrgFromHost.
--   Authz/Jwks.antt (Authz/Jwks/Collected, Published): pkg/authz/jwks.go; `key_for` is JWKSKeySource.KeyFor.
-- * Idp.antt (the data, and `Keycloak`): control-plane/internal/idp/keycloak.go and bootstrap.go;
--   the provider is a parameter. Idp/Rest.antt (Idp/Rest/Api; proofs in Sends, Paths, Tokens,
--   Upsert): rest.go, brokering.go, directory.go and realms.go there, the client of the provider;
--   `do_request` is RESTClient.do, and the functions of Idp/Rest/Api have the names of its methods.
--   Idp/Escape.antt is url.PathEscape.
-- * Tenants.antt (Tenants/Slug, Saga, Service, Lifecycle, Handlers; proofs in Format, Compensation,
--   Rows, Creation, Transitions, Guard): control-plane/internal/tenants; `provision`, `suspend`,
--   `resume` and `delete` are the methods of Service, `run_saga` is runSaga, `handle` the routes'
--   handlers, `serve` the guard.
-- * Invites.antt (Invites/Handlers; proofs in Tokens, Rows, Requests, Once):
--   control-plane/internal/invites; the store and the tokens, then `create`, `revoke` and `accept`, the
--   methods of Handlers.
-- * Admin.antt (Admin/Handlers, Edits, Credentials, Api; proofs in Stored, Changes, Editing, Rotation,
--   Requests, Invariant, Agreement, Propagation, Listed, Purge, Revival): control-plane/internal/admin;
--   `create_server` and the like are the methods of MemStore, `create`, `patch`, `delete` and the
--   functions of Admin/Credentials those of Handlers, `purge_org` is PurgeOrg, `serve` the guard.
-- * Secrets.antt (Secrets/Refs) and ServerEvents.antt: pkg/secrets/secrets.go and
--   pkg/serverevents/serverevents.go. Secrets/Vault.antt (Secrets/Vault/Simulation):
--   pkg/secrets/vault.go; `vault_put`, `vault_get` and `vault_delete` are the methods of
--   VaultStore.
-- * Sandbox.antt (Sandbox/Confined, Replies, Processes): gateway/internal/sandbox; `build_args` is
--   ContainerRuntime.buildArgs, `call` is conn.call, `ensure`, `call_tool`, `list_tools` and
--   `close` are the methods of Server.
-- * Config.antt (Config/Production): pkg/config/config.go; `load` is load, `validate_config`
--   Config.Validate.
-- * DevApi.antt (DevApi/Listing): control-plane/internal/devapi/devapi.go; `list_orgs` is
--   Handlers.ListOrgs.
-- * Gateway.antt (Gateway/Front; proofs in Events, Credentials, Discovery): gateway/internal/server and
--   internal/auth; `serve_mcp` is a request behind RequireAuth, `apply_server_event` is
--   Server.applyServerEvent, `reconcile` Server.Reconcile, `provide` what perUserProvider returns.
-- * Scim.antt (Scim/Config, Users, Server; proofs in Bearers, Realm):
--   control-plane/internal/scimbridge; the functions have the names of the methods of Handlers,
--   `serve` and `serve_admin` are the guards.
-- * Brokering.antt (Brokering/Handlers, Secrecy): control-plane/internal/brokering; the store, then the
--   methods of Handlers.
-- * RemoteHttp.antt (RemoteHttp/Egress; proofs in Sessions, Dialing): gateway/internal/remotehttp;
--   `rpc` and the like are the methods of Client, `guarded_dial` is the dialer of
--   guardedDialContext.
--
-- Conventions. A Go string is the list of its bytes (`Text`, Prelude/Bytes.antt). A map is an
-- association list (Prelude/Dict.antt); where a theorem does not depend on the order of its entries
-- it holds for Go's unspecified order. A method is a function from the old state to the new one with
-- its results, and an error is a value. A mutex that is held for a whole method makes the method one
-- step; where a method gives the lock up in between (GetForUser) it is several functions. A request to
-- the control plane is one step as well, although the code holds no lock over all of it. Times are
-- numbers of nanoseconds, and each call takes what its clock answers. `int` and `Duration` are the
-- signed ℤ of Prelude/Tests.antt where the code tests the sign, and counters do not overflow.
--
-- Bounds and fuel. Among the loops only that of `Prewarm` is on a condition: its model recurs on
-- MinWarm rounds, and `prewarm-total` shows that they suffice; the others are recursions on the
-- collection. `%d` prints a number with one more unit of fuel than its size, which `digits-fuel`
-- shows to suffice.
--
-- Documented behaviour of what is not here, as hypotheses. `parse_run` (Sandbox/Confined.antt)
-- reads a command line as `docker run` does, if it has no other options than the source writes;
-- `Engine` (Secrets/Vault/Simulation) is a key-value engine of Vault, for references that name a
-- path of their own, `Counts` (Quota/Redis/Shared) the commands INCR and PEXPIRE of Redis,
-- `Documented` (Audit/Recovery) an object store that keeps what is put and lists it by prefix, and
-- `Instances` (Idp/Rest/Upsert) the brokered providers of a realm.
--
-- Not modelled: HTTP routing and transport, JSON encoding, the SQL stores, the Redis bus of the server
-- events, logging and telemetry, the start of processes and containers, the programs' entry points
-- and the web console. What the modelled code takes from them is an argument: the fields of `World` in
-- Mcp.antt for the downstream servers, or of the networks of Idp/Rest.antt and Secrets/Vault.antt.
pub mod Prelude
pub mod Pool
pub mod Quota
pub mod Aggregate
pub mod Downstream
pub mod Authz
pub mod Audit
pub mod Idp
pub mod Tenants
pub mod Invites
pub mod Mcp
pub mod Secrets
pub mod ServerEvents
pub mod Admin
pub mod Gateway
pub mod Scim
pub mod Brokering
pub mod RemoteHttp
pub mod Sandbox
pub mod Config
pub mod DevApi
