-- ===== src/Quota/Tests.antt =====
-- quota.go: runs on small inputs, and the theorems at concrete limiters.
use mcp_gateway_w.Prelude.{
  ℕ, min, ◌-◌, ◌≡◌, refl, true, List, [], ◌∷◌, none, Text, lit, text_beq, pos, negsuc, arith,
}
use mcp_gateway_w.Prelude.Dict.{lookup, insert}
use mcp_gateway_w.Quota.{
  WindowLimiter, Enforcer, new_window_limiter, truncate, allow, new_enforcer, enforce,
  enforcer_allow,
}
use mcp_gateway_w.Quota.Window.{allowed, requests, used, allowed-eq-min}
use mcp_gateway_w.Quota.Isolation.{Request, enforce_all, enforce_isolated}

runs : Unit {0}
unfolding new_window_limiter allow new_enforcer enforcer_allow allowed requests used enforce_all
    lookup insert text_beq
runs = tt

abbrev two_per_ten : WindowLimiter
two_per_ten = record { limit = pos 2; window = pos 10; buckets = [] }

abbrev busy : List (ℕ × Text)
busy = (21, lit "a") ∷ (22, lit "b") ∷ (23, lit "a") ∷ (24, lit "a") ∷ (29, lit "a") ∷ []

two_allowed : allowed two_per_ten (lit "a") busy ≡ 2
unfolding runs
two_allowed = refl

next_window : allowed two_per_ten (lit "a") ((19, lit "a") ∷ (19, lit "a") ∷ (20, lit "a") ∷ []) ≡ 3
unfolding runs
next_window = refl

unlimited : (allow (new_window_limiter (negsuc 0) (pos 10)) 5 (lit "a")).1 ≡ true
unfolding runs
unlimited = refl

nil_enforcer : (enforcer_allow none 1 1 (lit "acme") (lit "u")).1 ≡ true
unfolding runs
nil_enforcer = refl

abbrev flood : List Request
flood =
    record { org_time = 1; user_time = 1; org = lit "globex"; user = lit "u" }
    ∷ record { org_time = 2; user_time = 2; org = lit "globex"; user = lit "u" }
    ∷ []

abbrev one_each : Enforcer
one_each = record { org = two_per_ten; user = two_per_ten }

allowed-eq-min_example : allowed two_per_ten (lit "a") busy ≡ min (requests (lit "a") busy) (2 - 0)
unfolding runs truncate
allowed-eq-min_example =
    allowed-eq-min two_per_ten (lit "a") 20 busy refl (omega arith) (omega arith)

enforce_isolated_example :
    (enforce (enforce_all one_each flood) 3 3 (lit "acme") (lit "u")).1
    ≡ (enforce one_each 3 3 (lit "acme") (lit "u")).1
enforce_isolated_example =
    enforce_isolated one_each flood 3 3 (lit "acme") (lit "u") (omega arith)
      (((λ e. cc), omega arith), (((λ e. cc), omega arith), tt))
