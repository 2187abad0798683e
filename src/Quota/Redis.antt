-- ===== src/Quota/Redis.antt =====
-- services/gateway/internal/quota/redis.go: windows that the gateway's replicas share through Redis.
-- `incr` and `pexpire` are Redis' commands INCR and PEXPIRE, over Redis' states; an error is `none` or
-- false. The script runs as one step. Times are in milliseconds since 1970.
mod Keys
mod Shared
mod Tests
use mcp_gateway_w.Prelude.{
  ℕ, suc, ◌+◌, ◌/◌, Bool, true, false, List, [], ◌∷◌, ◌++◌, Option, none, some, Text, lit, below,
  leb, nat_beq, if◌then◌else◌, ℤ, pos_part,
}
use mcp_gateway_w.Audit.{decimal}
use mcp_gateway_w.Quota.{org_key, user_key}

pub record Scripter (W : Type 0) : Type 0 where
  pub incr : W → Text → Option ℕ × W
  pub pexpire : W → Text → ℕ → Bool × W

-- The window is in nanoseconds.
pub record RedisLimiter : Type 0 where
  pub limit : ℤ
  pub window : ℤ

-- `Duration.Milliseconds`, of which only whether it is positive, and then its value, matters.
unfoldable pub window_ms : RedisLimiter → ℕ
window_ms l = pos_part l.window / 1_000_000

unfoldable pub redis_key : Text → ℕ → Text
unfolding decimal
redis_key key idx = lit "quota:" ++ (key ++ (lit ":" ++ decimal idx))

-- `n <= limit`, for a limit that is positive; an error lets the request pass.
abbrev pub within : ℤ → Option ℕ → Bool
within limit none = true
within limit (some n) = leb n (pos_part limit)

module _ {W : Type 0} (rdb : Scripter W) where
  -- The script, from the new count on: the first count of a window sets the key's time to live.
  unfoldable pub expiring : W → Text → ℕ → Option ℕ → Option ℕ × W
  expiring w key ms none = (none, w)
  expiring w key ms (some c) =
      if nat_beq c 1
      then (let (ok, w1) = rdb.pexpire w key ms in (if ok then some c else none, w1))
      else (some c, w)

  unfoldable pub incr_expire : W → Text → ℕ → Option ℕ × W
  unfolding expiring
  incr_expire w key ms = let (c, w1) = rdb.incr w key in expiring w1 key ms c

  unfoldable pub redis_allow : RedisLimiter → ℕ → W → Text → Bool × W
  unfolding window_ms redis_key incr_expire
  redis_allow l now w key =
      if below 0 l.limit
      then (if nat_beq (window_ms l) 0
          then (true, w)
          else (let (n, w1) = incr_expire w (redis_key key (now / window_ms l)) (window_ms l) in
              (within l.limit n, w1)))
      else (true, w)

  -- `Enforcer.Allow` over two such limiters, which read the clock one after the other.
  unfoldable pub redis_enforce : RedisLimiter → RedisLimiter → ℕ → ℕ → W → Text → Text → Bool × W
  unfolding redis_allow org_key user_key
  redis_enforce org user t t' w o u =
      let (a, w1) = redis_allow org t w (org_key o) in
      let rest = redis_allow user t' w1 (user_key o u) in if a then rest else (false, w1)
