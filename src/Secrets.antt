-- ===== src/Secrets.antt =====
-- pkg/secrets/secrets.go: the credentials of the downstream servers. `SecretStore` is the interface, which
-- Vault implements too; `mem_store` is the in-memory implementation. A write answers whether it
-- succeeded; `get` has one answer for an absent secret and for a failure, since the callers do not
-- tell them apart.
pub mod Refs
pub mod Vault
mod Tests
use mcp_gateway_w.Prelude.{Bool, true, ◌++◌, Option, Text, lit}
use mcp_gateway_w.Prelude.Dict.{Dict, lookup, insert, erase}

unfoldable pub org_ref : Text → Text → Text
org_ref org server_id = lit "org/" ++ (org ++ (lit "/server/" ++ server_id))

unfoldable pub user_ref : Text → Text → Text → Text
user_ref org server_id user_id =
    lit "org/" ++ (org ++ (lit "/server/" ++ (server_id ++ (lit "/user/" ++ user_id))))

pub record SecretStore (S : Type 0) : Type 0 where
  pub put : S → Text → Dict Text → Bool × S
  pub get : S → Text → Option (Dict Text)
  pub delete : S → Text → Bool × S

unfoldable pub mem_store : SecretStore (Dict (Dict Text))
mem_store = record {
  put = λ m ref values. (true, insert ref values m);
  get = λ m ref. lookup ref m;
  delete = λ m ref. (true, erase ref m);
}
