-- ===== src/Admin/Changes.antt =====
-- What a request may do to the store and to what was published, as a relation, and that every handler
-- keeps to it.
use mcp_gateway_w.Prelude.{
  suc, ◌≡◌, ◌≢◌, refl, sym, ◌⊎◌, true, false, List, [], ◌∷◌, Option, none, some, Text, text_eq_iff,
  Lacks, arith, if◌then◌else◌,
}
use mcp_gateway_w.Prelude.Dict.{Dict, lookup, insert, erase}
use mcp_gateway_w.ServerEvents.{Event}
use mcp_gateway_w.Admin.{
  remote_http, stdio, Server, Store, store_key, server_id, slug_taken, create_server, get_server,
  update_server, delete_server,
}
use mcp_gateway_w.Admin.Stored.{IsStored, store_key-injective}
use mcp_gateway_w.Admin.Handlers.{added, removed, rotated}

abbrev pub IsKnown : Text → Type 0
IsKnown t = (t ≡ remote_http) ⊎ (t ≡ stdio)

-- The organization, the identity and the slug stay.
pub record IsSame (old s : Server) : Type 0 where
  pub org_id : s.org_id ≡ old.org_id
  pub id : s.id ≡ old.id
  pub slug : s.slug ≡ old.slug

-- The store and the list of the published events before and after a request to `org`; `rot` is the
-- server whose shared credential it sets or clears, if it does.
pub data Change (rot : Option Text) (org : Text) (m m' : Store) (es es' : List Event) : Type 0 where
  quiet : m' ≡ m → es' ≡ es → Change rot org m m' es es'
  adds :
      (s : Server)
      → s.org_id ≡ org
      → slug_taken m.by_id org s.slug ≡ false
      → s.enabled ≡ true
      → IsKnown s.server_type
      → m' ≡ (create_server m s).1
      → es' ≡ added (record s { id = server_id (suc m.seq) }) ∷ es
      → Change rot org m m' es es'
  replaces :
      (id : Text) (old s : Server)
      → lookup (store_key org id) m.by_id ≡ some old
      → IsSame old s
      → m' ≡ record m { by_id = insert (store_key org id) s m.by_id }
      → es' ≡ (if s.enabled then added s else removed s) ∷ es
      → Change rot org m m' es es'
  rotates :
      (id : Text) (old s : Server)
      → rot ≡ some id
      → lookup (store_key org id) m.by_id ≡ some old
      → IsSame old s
      → s.enabled ≡ old.enabled
      → s.server_type ≡ old.server_type
      → m' ≡ record m { by_id = insert (store_key org id) s m.by_id }
      → es' ≡ added s ∷ es
      → Change rot org m m' es es'
  drops :
      (id : Text) (old : Server)
      → lookup (store_key org id) m.by_id ≡ some old
      → m' ≡ record m { by_id = erase (store_key org id) m.by_id }
      → es' ≡ removed old ∷ es
      → Change rot org m m' es es'
  rotates_user :
      (id user : Text) (old : Server)
      → lookup (store_key org id) m.by_id ≡ some old
      → user ≢ []
      → m' ≡ m
      → es' ≡ rotated old user ∷ es
      → Change rot org m m' es es'

-- A server is put back with its credential set or cleared, and announced as one that is added.
pub record IsRotated (org id : Text) (old : Server) (m m' : Store) (es es' : List Event)
    : Type 0 where
  pub server : Server
  pub same : IsSame old server
  pub same_enabled : server.enabled ≡ old.enabled
  pub same_type : server.server_type ≡ old.server_type
  pub store : m' ≡ record m { by_id = insert (store_key org id) server m.by_id }
  pub published : es' ≡ added server ∷ es

pub insert-same :
    {V : Type 0} (m : Dict V) (k : Text) (v : V) → lookup k m ≡ some v → insert k v m ≡ m
unfolding lookup insert
insert-same [] k v e = ground arith
insert-same ((j, w) ∷ m) k v e = ground (arith, insert-same m k v, text_eq_iff j k)

-- A server that is found stands in the organization of the request, with the identity asked for.
get_server-found :
    (m : Store) (org id : Text) (s : Server)
    → IsStored m
    → Lacks b'/' org
    → get_server m org id ≡ some s
    → (s.org_id ≡ org) × (s.id ≡ id)
unfolding get_server
get_server-found m org id s w l e =
    let n = w.entry (store_key org id) s e in
    let same = store_key-injective org s.org_id id s.id l n.org n.key in (sym same.0, sym same.1)

pub update_server-found :
    (m : Store) (k : Text) (old s : Server)
    → lookup k m.by_id ≡ some old
    → store_key s.org_id s.id ≡ k
    → update_server m s ≡ (some s, record m { by_id = insert k s m.by_id })
unfolding update_server
update_server-found m k old s e q = ground (arith, e, q)

pub delete_server-found :
    (m : Store) (org id : Text) (old : Server)
    → lookup (store_key org id) m.by_id ≡ some old
    → delete_server m org id ≡ (true, record m { by_id = erase (store_key org id) m.by_id })
unfolding delete_server
delete_server-found m org id old e = ground (arith, e)

pub create_server-taken :
    (m : Store) (s : Server)
    → slug_taken m.by_id s.org_id s.slug ≡ true
    → create_server m s ≡ (none, m)
unfolding create_server
create_server-taken m s e = rw e refl

pub create_server-free :
    (m : Store) (s : Server)
    → slug_taken m.by_id s.org_id s.slug ≡ false
    → let s1 : Server = record s { id = server_id (suc m.seq) } in
      create_server m s
      ≡ (some s1, record { by_id = insert (store_key s1.org_id s1.id) s1 m.by_id; seq = suc m.seq })
unfolding create_server
create_server-free m s e = rw e refl
