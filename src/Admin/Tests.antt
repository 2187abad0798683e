-- ===== src/Admin/Tests.antt =====
-- The admin API on small inputs, alone and with the gateway, and the theorems at concrete requests.
use mcp_gateway_w.Prelude.{
  ◌≡◌, refl, inr, true, false, List, [], ◌∷◌, map, none, some, Text, lit, text_beq, text_eq_iff,
  trim_left, trim_right, trim_space, split_at, arith,
}
use mcp_gateway_w.Prelude.Dict.{Dict, lookup, insert, erase}
use mcp_gateway_w.Audit.{digits, decimal}
use mcp_gateway_w.Authz.{Principal}
use mcp_gateway_w.Secrets.{mem_store, org_ref, user_ref}
use mcp_gateway_w.ServerEvents.{Event}
use mcp_gateway_w.Gateway
use mcp_gateway_w.Gateway.{new_gateway, replay}
use mcp_gateway_w.Gateway.Events.{registered}
use mcp_gateway_w.Admin.{
  stdio, Server, unknown, store_key, server_id, slug_taken, create_server, get_server, servers_of,
  list_servers, update_server, delete_server,
}
use mcp_gateway_w.Admin.Stored.{IsStored}
use mcp_gateway_w.Admin.Handlers.{
  answered, Handlers, State, probe_remote, added, removed, rotated, record_event,
}
use mcp_gateway_w.Admin.Edits.{
  CreateReq, PatchReq, patched, invalid, new_server, created, create_valid, create, updated, patch,
  deleted, delete, purge_one, purge_all, purge_org,
}
use mcp_gateway_w.Admin.Credentials.{
  marked, stored_org, put_org_credentials, cleared_org, deleted_org, delete_org_credentials,
  stored_my, put_my_credentials, cleared_my, deleted_my, delete_my_credentials,
}
use mcp_gateway_w.Admin.Api.{Request, creates, patches, deletes, handle, non_blank, split_csv}
use mcp_gateway_w.Admin.Invariant.{Isolates, handle-IsStored, handle-Isolates}
use mcp_gateway_w.Admin.Propagation.{AllKnown, IsFollowed, IsFollowed-new, handle-IsFollowed}
use mcp_gateway_w.Admin.Purge.{IsPurged, purge_org-IsPurged}
use mcp_gateway_w.Admin.Revival.{put_org_credentials_revives}

runs : Unit {0}
unfolding text_beq lookup insert erase digits decimal mem_store org_ref user_ref store_key server_id
    slug_taken create_server get_server servers_of list_servers update_server delete_server
    probe_remote added removed rotated patched invalid record_event new_server created create_valid
    create updated patch deleted delete purge_one purge_all purge_org marked stored_org
    put_org_credentials cleared_org deleted_org delete_org_credentials stored_my put_my_credentials
    cleared_my deleted_my delete_my_credentials handle trim_left trim_right trim_space split_at
    non_blank split_csv
runs = tt

abbrev handlers : Handlers (Dict (Dict Text))
handlers = record {
  secrets = mem_store;
  audit = none;
  clock = λ n. n;
  probe = λ n url. answered 200 (lit "200 OK");
}

abbrev empty : State (Dict (Dict Text))
empty = record {
  store = record { by_id = []; seq = 0 };
  secrets = [];
  published = [];
  records = [];
  readings = 0;
}

abbrev admin : Principal
admin = record {
  org_id = lit "acme";
  user_id = lit "u1";
  username = lit "op";
  roles = lit "admin" ∷ [];
}

abbrev files : CreateReq
files = record {
  slug = lit "files";
  server_type = stdio;
  endpoint_url = [];
  command = lit "fs";
  args = [];
  env = [];
  credential_mode = lit "org_shared";
  allowed_roles = [];
}

abbrev off : PatchReq
off = record {
  enabled = some false;
  server_type = none;
  endpoint_url = none;
  command = none;
  args = none;
  env = none;
  credential_mode = none;
  allowed_roles = none;
}

abbrev after : State (Dict (Dict Text)) → Request → State (Dict (Dict Text))
after st req = (handle handlers st (lit "acme") (some admin) req).1

abbrev one : State (Dict (Dict Text))
one = after empty (creates (some files))

abbrev disabled : State (Dict (Dict Text))
disabled = after one (patches (lit "srv-1") (some off))

created_once : (handle handlers one (lit "acme") (some admin) (creates (some files))).0.status ≡ 409
unfolding runs
created_once = refl

not_over_there :
    (handle handlers one (lit "other") (some admin) (deletes (lit "srv-1"))).0.status ≡ 404
unfolding runs
not_over_there = refl

disabled_now : map (λ e. e.slug) disabled.published ≡ lit "files" ∷ lit "files" ∷ []
unfolding runs
disabled_now = refl

purged : (purge_org one (lit "acme")).0 ≡ 1
unfolding runs
purged = refl

origins : split_csv (lit "a, b,,") ≡ lit "a" ∷ lit "b" ∷ []
unfolding runs
origins = refl

empty-IsStored : IsStored empty.store
unfolding lookup
empty-IsStored = record {
  entry = λ k s e. absurd (ground (arith, e));
  unique = λ k j s t e f p q. absurd (ground (arith, e));
  distinct = tt;
}

one-IsStored : IsStored one.store
one-IsStored =
    handle-IsStored handlers empty (lit "acme") admin (creates (some files)) empty-IsStored
      (ground arith) (ground arith)

disabled-IsStored : IsStored disabled.store
disabled-IsStored =
    handle-IsStored handlers one (lit "acme") admin (patches (lit "srv-1") (some off)) one-IsStored
      (ground arith) (ground arith)

handle-Isolates_example :
    Isolates (lit "acme") one.store disabled.store one.published disabled.published
handle-Isolates_example =
    handle-Isolates handlers one (lit "acme") admin (patches (lit "srv-1") (some off)) one-IsStored
      (ground arith) (ground arith)

abbrev gateway : Gateway.Server (Dict (Dict Text))
gateway = record { secrets_api = mem_store; block_egress = true; header_key = λ s. s }

one-AllKnown : AllKnown one.store
unfolding runs AllKnown
one-AllKnown k s e on = ground (arith, e, text_eq_iff (lit "acme/srv-1") k)

disabled-AllKnown : AllKnown disabled.store
unfolding runs AllKnown
disabled-AllKnown k s e on = ground (arith, e, on, text_eq_iff (lit "acme/srv-1") k)

one-IsFollowed : IsFollowed gateway one.store one.published
one-IsFollowed =
    handle-IsFollowed gateway handlers empty (lit "acme") admin (creates (some files))
      empty-IsStored (ground arith) (ground arith) one-AllKnown
      (λ id old e f. absurd (ground (arith, e))) (IsFollowed-new gateway empty.store refl)

handle-IsFollowed_example : IsFollowed gateway disabled.store disabled.published
handle-IsFollowed_example =
    handle-IsFollowed gateway handlers one (lit "acme") admin (patches (lit "srv-1") (some off))
      one-IsStored (ground arith) (ground arith) disabled-AllKnown
      (λ id old e f. absurd (ground (arith, e))) one-IsFollowed

purge_org-IsPurged_example : IsPurged gateway (lit "acme") one (purge_org one (lit "acme")).1
purge_org-IsPurged_example = purge_org-IsPurged gateway (lit "acme") one one-IsStored one-IsFollowed

-- The disabled server and the events once the credential is stored.
abbrev files_off : Server
files_off = record {
  id = lit "srv-1";
  org_id = lit "acme";
  slug = lit "files";
  server_type = stdio;
  endpoint_url = [];
  command = lit "fs";
  args = [];
  env = [];
  credential_mode = lit "org_shared";
  credential_set = false;
  allowed_roles = [];
  enabled = false;
  health = unknown;
  health_detail = [];
  created_at = 0;
}

abbrev token : Dict Text
token = (lit "TOKEN", lit "x") ∷ []

abbrev revived : State (Dict (Dict Text))
revived =
    (put_org_credentials handlers disabled (lit "acme") (some admin) (lit "srv-1") (some files_off)
      (some token)).1

abbrev with_secrets : List Event → List (Dict (Dict Text) × Event)
with_secrets es = map (λ e. ([], e)) es

revived-log : map (λ x. x.1) (with_secrets revived.published) ≡ revived.published
unfolding runs
revived-log = refl

found_off : get_server disabled.store (lit "acme") (lit "srv-1") ≡ some files_off
unfolding runs
found_off = refl

stores : (mem_store.put disabled.secrets (org_ref (lit "acme") (lit "srv-1")) token).0 ≡ true
unfolding runs
stores = refl

put_org_credentials_revives_example :
    (registered
        (replay gateway (with_secrets revived.published) new_gateway).catalog
        (lit "acme")
        (lit "files")
      ≡ true)
    × (s1 : Server) × (get_server revived.store (lit "acme") (lit "srv-1") ≡ some s1)
    × (s1.enabled ≡ false)
put_org_credentials_revives_example =
    put_org_credentials_revives gateway handlers disabled (lit "acme") (lit "srv-1") (some admin)
      files_off token (with_secrets revived.published) disabled-IsStored (ground arith) found_off
      refl (inr refl) stores revived-log
