-- ===== src/Quota/Isolation.antt =====
-- quota.go: one tenant's requests never change another's answers.
use mcp_gateway_w.Prelude.{
  ℕ, ◌≡◌, ◌≢◌, refl, ◌∙◌, inl, inr, List, [], ◌∷◌, ◌++◌, Option, none, some, Text, lit, text_eq_iff,
  Lacks, append-sep-injective, append_left-injective, All, arith, Bool-cases,
}
use mcp_gateway_w.Prelude.Dict.{lookup}
use mcp_gateway_w.Quota.{
  Bucket, WindowLimiter, Enforcer, truncate, in_bucket, allow, enforce, org_key, user_key,
}
use mcp_gateway_w.Quota.Window.{allow-config, allow-frame}

-- Two limiters that answer alike for `key`.
pub record SameFor (key : Text) (l m : WindowLimiter) : Type 0 where
  pub limit : l.limit ≡ m.limit
  pub window : l.window ≡ m.window
  pub bucket : lookup key l.buckets ≡ lookup key m.buckets

in_bucket-answer :
    (l m : WindowLimiter) (key : Text) (ws : ℕ) (o : Option Bucket)
    → l.limit ≡ m.limit
    → (in_bucket l key ws o).1 ≡ (in_bucket m key ws o).1
unfolding in_bucket
in_bucket-answer l m key ws none e = rw e (ground arith)
in_bucket-answer l m key ws (some b) e = ground arith

allow-answer :
    (l m : WindowLimiter) (now : ℕ) (key : Text)
    → SameFor key l m
    → (allow l now key).1 ≡ (allow m now key).1
unfolding allow
allow-answer l m now key s = ground (
  arith,
  s.limit,
  s.window,
  s.bucket,
  in_bucket-answer l m key (truncate now m.window) (lookup key m.buckets) s.limit,
)

SameFor-refl : (key : Text) (l : WindowLimiter) → SameFor key l l
SameFor-refl key l = record { limit = refl; window = refl; bucket = refl }

-- A request for another key keeps the answers for `key`.
SameFor-allow :
    (key : Text) (l m : WindowLimiter) (now : ℕ) (k : Text)
    → k ≢ key
    → SameFor key l m
    → SameFor key (allow l now k).0 m
SameFor-allow key l m now k d s = record {
  limit = (allow-config l now k).0 ∙ s.limit;
  window = (allow-config l now k).1 ∙ s.window;
  bucket = allow-frame l now k key (ground (arith, text_eq_iff k key)) ∙ s.bucket;
}

org_key-injective : (o p : Text) → org_key o ≡ org_key p → o ≡ p
unfolding org_key
org_key-injective o p e = append_left-injective (lit "org:") o p e

-- Two organizations without a slash never share the bucket of a user.
user_key-org : (o p u v : Text) → Lacks b'/' o → Lacks b'/' p → user_key o u ≡ user_key p v → o ≡ p
unfolding user_key
user_key-org o p u v ho hp e =
    (append-sep-injective b'/' o p u v ho hp
      (append_left-injective (lit "user:") (o ++ b'/' ∷ u) (p ++ b'/' ∷ v) e)).0

-- A request: when the two limiters read the clock, the organization and the user.
pub record Request : Type 0 where
  pub org_time : ℕ
  pub user_time : ℕ
  pub org : Text
  pub user : Text

unfoldable pub enforce_all : Enforcer → List Request → Enforcer
enforce_all e [] = e
enforce_all e (r ∷ rs) = enforce_all (enforce e r.org_time r.user_time r.org r.user).0 rs

module _ (org user : Text) (plain : Lacks b'/' org) where
  pub record Agree (e f : Enforcer) : Type 0 where
    pub on_org : SameFor (org_key org) e.org f.org
    pub on_user : SameFor (user_key org user) e.user f.user

  enforce-Agree :
      (e f : Enforcer) (r : Request)
      → r.org ≢ org
      → Lacks b'/' r.org
      → Agree e f
      → Agree (enforce e r.org_time r.user_time r.org r.user).0 f
  unfolding enforce
  enforce-Agree e f r d h a =
      let o : SameFor (org_key org) (allow e.org r.org_time (org_key r.org)).0 f.org =
        SameFor-allow (org_key org) e.org f.org r.org_time (org_key r.org)
          (λ same. d (org_key-injective r.org org same)) a.on_org in
      let u : SameFor (user_key org user) (allow e.user r.user_time (user_key r.org r.user)).0
          f.user =
        SameFor-allow (user_key org user) e.user f.user r.user_time (user_key r.org r.user)
          (λ same. d (user_key-org r.org org r.user user h plain same)) a.on_user in
      elim (Bool-cases (allow e.org r.org_time (org_key r.org)).1) [
        | inl good ↦ rw (good, enforce) (record { on_org = o; on_user = u })
        | inr bad ↦ rw (bad, enforce) (record { on_org = o; on_user = a.on_user })
      ]

  enforce_all-Agree :
      (e f : Enforcer) (rs : List Request)
      → All (λ r. (r.org ≢ org) × Lacks b'/' r.org) rs
      → Agree e f
      → Agree (enforce_all e rs) f
  unfolding enforce_all
  enforce_all-Agree e f [] h a = a
  enforce_all-Agree e f (r ∷ rs) h a =
      enforce_all-Agree (enforce e r.org_time r.user_time r.org r.user).0 f rs h.1
        (enforce-Agree e f r h.0.0 h.0.1 a)

-- Whatever requests other organizations make, the answer to a request of this organization is what
-- it would have been without them. Organizations hold no slash, as host labels do not.
pub enforce_isolated :
    (e : Enforcer) (rs : List Request) (t t' : ℕ) (org user : Text)
    → Lacks b'/' org
    → All (λ r. (r.org ≢ org) × Lacks b'/' r.org) rs
    → (enforce (enforce_all e rs) t t' org user).1 ≡ (enforce e t t' org user).1
unfolding enforce
enforce_isolated e rs t t' org user plain h =
    let a =
      enforce_all-Agree org user plain e e rs h
        (record { on_org = SameFor-refl _ e.org; on_user = SameFor-refl _ e.user }) in
    ground (
      arith,
      allow-answer _ _ t (org_key org) a.on_org,
      allow-answer _ _ t' (user_key org user) a.on_user,
    )
