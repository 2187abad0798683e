-- ===== src/Secrets/Refs.antt =====
-- secrets.go: no two credentials share a place.
use mcp_gateway_w.Prelude.{
  ◌≡◌, ◌≢◌, refl, subst, [], ◌∷◌, ◌++◌, Text, lit, Lacks, append-sep-injective,
  append_left-injective,
}
use mcp_gateway_w.Secrets.{org_ref, user_ref}

-- The reference of a user's credential gives back the organization, the server and the user, where
-- the first two have no slash in them.
user_ref-injective :
    (org org' id id' user user' : Text)
    → Lacks b'/' org
    → Lacks b'/' org'
    → Lacks b'/' id
    → Lacks b'/' id'
    → user_ref org id user ≡ user_ref org' id' user'
    → (org ≡ org') × (id ≡ id') × (user ≡ user')
unfolding user_ref
user_ref-injective org org' id id' user user' l l' n n' e =
    let (o, r) =
      append-sep-injective b'/' org org' _ _ l l' (append_left-injective (lit "org/") _ _ e) in
    let (i, u) =
      append-sep-injective b'/' id id' _ _ n n' (append_left-injective (lit "server/") _ _ r) in
    (o, i, append_left-injective (lit "user/") user user' u)

-- So does that of the credential which an organization shares.
pub org_ref-injective :
    (org org' id id' : Text)
    → Lacks b'/' org
    → Lacks b'/' org'
    → org_ref org id ≡ org_ref org' id'
    → (org ≡ org') × (id ≡ id')
unfolding org_ref
org_ref-injective org org' id id' l l' e =
    let (o, r) =
      append-sep-injective b'/' org org' _ _ l l' (append_left-injective (lit "org/") _ _ e) in
    (o, append_left-injective (lit "server/") id id' r)

-- A text with a slash before its end.
after_slash : (s t : Text) → Lacks b'/' (s ++ b'/' ∷ t) → ⊥
after_slash [] t l = l.0 refl
after_slash (b ∷ s) t l = after_slash s t l.1

-- The shared credential of one server is never at the reference of a user's.
pub org_ref-user_ref :
    (org org' id id' user : Text)
    → Lacks b'/' org
    → Lacks b'/' org'
    → Lacks b'/' id
    → org_ref org id ≢ user_ref org' id' user
unfolding org_ref user_ref
org_ref-user_ref org org' id id' user l l' n e =
    let (o, r) =
      append-sep-injective b'/' org org' _ _ l l' (append_left-injective (lit "org/") _ _ e) in
    let same = append_left-injective (lit "server/") _ _ r in
    after_slash id' (lit "user/" ++ user) (subst (Lacks b'/') same n)
