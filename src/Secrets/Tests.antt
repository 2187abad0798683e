-- ===== src/Secrets/Tests.antt =====
-- The references of the secrets on small inputs.
use mcp_gateway_w.Prelude.{◌≡◌, refl, lit}
use mcp_gateway_w.Secrets.{org_ref, user_ref}

shared : org_ref (lit "acme") (lit "srv-1") ≡ lit "org/acme/server/srv-1"
unfolding org_ref
shared = refl

own : user_ref (lit "acme") (lit "srv-1") (lit "bob") ≡ lit "org/acme/server/srv-1/user/bob"
unfolding user_ref
own = refl
