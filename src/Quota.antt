-- ===== src/Quota.antt =====
-- services/gateway/internal/quota/quota.go: fixed-window request limits per organization and user.
-- A time is the number of nanoseconds since Go's zero time, which `Truncate` rounds down from; each
-- call takes the time that its `now()` answers. Each call runs under the limiter's mutex.
pub mod Redis
mod Window
mod Isolation
mod Tests
use mcp_gateway_w.Prelude.{
  ℕ, suc, ◌+◌, ◌-◌, ◌%◌, Bool, true, false, [], ◌∷◌, ◌++◌, Option, none, some, Text, lit, nat_beq,
  below, if◌then◌else◌, ℤ, pos_part,
}
use mcp_gateway_w.Prelude.Dict.{Dict, lookup, insert}

pub record Bucket : Type 0 where
  pub start : ℕ
  pub count : ℕ

pub record WindowLimiter : Type 0 where
  pub limit : ℤ
  pub window : ℤ
  pub buckets : Dict Bucket

pub new_window_limiter : ℤ → ℤ → WindowLimiter
new_window_limiter limit window = record { limit = limit; window = window; buckets = [] }

-- `Time.Truncate`.
pub truncate : ℕ → ℤ → ℕ
truncate t d = if below 0 d then t - t % pos_part d else t

-- The end of `Allow`, at the bucket `b` of `key`.
count_in : WindowLimiter → Text → Bucket → WindowLimiter × Bool
count_in l key b =
    if below b.count l.limit
    then (record l { buckets = insert key (record b { count = b.count + 1 }) l.buckets }, true)
    else (l, false)

-- A new bucket is stored before it is counted in.
start_bucket : WindowLimiter → Text → ℕ → WindowLimiter × Bool
unfolding count_in
start_bucket l key ws =
    let b : Bucket = record { start = ws; count = 0 } in
    count_in (record l { buckets = insert key b l.buckets }) key b

in_bucket : WindowLimiter → Text → ℕ → Option Bucket → WindowLimiter × Bool
unfolding start_bucket count_in
in_bucket l key ws none = start_bucket l key ws
in_bucket l key ws (some b) = if nat_beq b.start ws then count_in l key b else start_bucket l key ws

unfoldable pub allow : WindowLimiter → ℕ → Text → WindowLimiter × Bool
unfolding in_bucket truncate
allow l now key =
    if below 0 l.limit
    then in_bucket l key (truncate now l.window) (lookup key l.buckets)
    else (l, true)

pub record Enforcer : Type 0 where
  pub org : WindowLimiter
  pub user : WindowLimiter

pub new_enforcer : ℤ → ℤ → ℤ → Enforcer
unfolding new_window_limiter
new_enforcer org_per_window user_per_window window = record {
  org = new_window_limiter org_per_window window;
  user = new_window_limiter user_per_window window;
}

pub org_key : Text → Text
org_key org = lit "org:" ++ org

pub user_key : Text → Text → Text
user_key org user = lit "user:" ++ (org ++ (lit "/" ++ user))

-- The two limiters read the clock one after the other.
pub enforce : Enforcer → ℕ → ℕ → Text → Text → Enforcer × Bool
unfolding org_key user_key
enforce e t t' org user =
    let (o, org_ok) = allow e.org t (org_key org) in
    let (u, user_ok) = allow e.user t' (user_key org user) in
    if org_ok then (record { org = o; user = u }, user_ok) else (record e { org = o }, false)

-- A nil enforcer is unlimited.
unfoldable pub enforcer_allow : Option Enforcer → ℕ → ℕ → Text → Text → Option Enforcer × Bool
unfolding enforce
enforcer_allow none t t' org user = (none, true)
enforcer_allow (some e) t t' org user =
    let (e', answer) = enforce e t t' org user in (some e', answer)
