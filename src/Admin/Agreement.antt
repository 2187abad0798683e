-- ===== src/Admin/Agreement.antt =====
-- When a catalog of the gateway agrees with the store of the admin API, and what keeps this when a
-- server is put or dropped.
use mcp_gateway_w.Prelude.{
  ◌≡◌, inl, inr, Bool, true, false, Bool-cases, ◌&&◌, some, Text, text_beq, text_eq_iff, eq_refl,
  arith, if◌then◌else◌,
}
use mcp_gateway_w.Prelude.Dict.{lookup, insert, erase, lookup-insert, lookup-erase}
use mcp_gateway_w.Downstream.{Catalog}
use mcp_gateway_w.Gateway.Events.{registered}
use mcp_gateway_w.Admin.{Server, Store}
use mcp_gateway_w.Admin.Stored.{IsStored}

-- An enabled server of the organization has the slug.
pub record Serves (m : Store) (org slug : Text) : Type 0 where
  pub key : Text
  pub server : Server
  pub found : lookup key m.by_id ≡ some server
  pub org_id : server.org_id ≡ org
  pub same_slug : server.slug ≡ slug
  pub enabled : server.enabled ≡ true

abbrev pub Agrees : Store → Catalog → Type 0
Agrees m c =
    (org slug : Text)
    → (registered c org slug ≡ true → Serves m org slug)
      × (Serves m org slug → registered c org slug ≡ true)

abbrev pub is_of : Server → Text → Text → Bool
is_of s org slug = text_beq s.org_id org && text_beq s.slug slug

pub Agrees-insert :
    (m m' : Store) (k : Text) (s : Server) (c c' : Catalog)
    → m'.by_id ≡ insert k s m.by_id
    → IsStored m'
    → ((old : Server) → lookup k m.by_id ≡ some old → (s.org_id ≡ old.org_id) × (s.slug ≡ old.slug))
    → ((org slug : Text)
        → registered c' org slug ≡ (if is_of s org slug then s.enabled else registered c org slug))
    → Agrees m c
    → Agrees m' c'
Agrees-insert m m' k s c c' q w f r a = λ org slug. elim (Bool-cases (is_of s org slug)) [
  | inl b ↦ (
    λ on. record {
      key = k;
      server = s;
      found = ground (arith, q, eq_refl k, lookup-insert k k s m.by_id);
      org_id = ground (arith, b, text_eq_iff s.org_id org);
      same_slug = ground (arith, b, text_eq_iff s.slug slug);
      enabled = ground (arith, b, on, r org slug);
    },
    λ x. ground (
      arith,
      b,
      r org slug,
      x.found,
      x.org_id,
      x.same_slug,
      x.enabled,
      q,
      eq_refl k,
      text_eq_iff s.org_id org,
      text_eq_iff s.slug slug,
      lookup-insert k k s m.by_id,
      w.unique k x.key s x.server,
    ),
  )
  | inr b ↦ (
    λ on.
        let x = (a org slug).0 (ground (arith, b, on, r org slug)) in
        record {
          key = x.key;
          server = x.server;
          found = ground (
            arith,
            b,
            q,
            x.found,
            x.org_id,
            x.same_slug,
            f x.server,
            text_eq_iff s.org_id org,
            text_eq_iff s.slug slug,
            text_eq_iff k x.key,
            lookup-insert k x.key s m.by_id,
          );
          org_id = x.org_id;
          same_slug = x.same_slug;
          enabled = x.enabled;
        },
    λ x.
        let there : lookup x.key m.by_id ≡ some x.server = ground (
          arith,
          b,
          q,
          x.found,
          x.org_id,
          x.same_slug,
          text_eq_iff s.org_id org,
          text_eq_iff s.slug slug,
          lookup-insert k x.key s m.by_id,
        ) in
        let y : Serves m org slug = record {
          key = x.key;
          server = x.server;
          found = there;
          org_id = x.org_id;
          same_slug = x.same_slug;
          enabled = x.enabled;
        } in
        ground (arith, b, r org slug, (a org slug).1 y),
  )
]

pub Agrees-erase :
    (m m' : Store) (k : Text) (old : Server) (c c' : Catalog)
    → m'.by_id ≡ erase k m.by_id
    → IsStored m
    → lookup k m.by_id ≡ some old
    → ((org slug : Text)
        → registered c' org slug ≡ (if is_of old org slug then false else registered c org slug))
    → Agrees m c
    → Agrees m' c'
Agrees-erase m m' k old c c' q w e r a = λ org slug. (
  λ on.
      let x = (a org slug).0 (ground (arith, on, r org slug)) in
      record {
        key = x.key;
        server = x.server;
        found = ground (
          arith,
          on,
          q,
          e,
          x.found,
          x.org_id,
          x.same_slug,
          r org slug,
          text_eq_iff old.org_id org,
          text_eq_iff old.slug slug,
          text_eq_iff k x.key,
          lookup-erase k x.key m.by_id,
        );
        org_id = x.org_id;
        same_slug = x.same_slug;
        enabled = x.enabled;
      },
  λ x.
      let there : lookup x.key m.by_id ≡ some x.server =
        ground (arith, q, x.found, lookup-erase k x.key m.by_id) in
      let y : Serves m org slug = record {
        key = x.key;
        server = x.server;
        found = there;
        org_id = x.org_id;
        same_slug = x.same_slug;
        enabled = x.enabled;
      } in
      ground (
        arith,
        q,
        e,
        there,
        x.found,
        x.org_id,
        x.same_slug,
        text_eq_iff old.org_id org,
        text_eq_iff old.slug slug,
        text_eq_iff k x.key,
        lookup-erase k x.key m.by_id,
        w.unique k x.key old x.server,
        r org slug,
        (a org slug).1 y,
      ),
)
