-- ===== src/Quota/Redis/Tests.antt =====
-- Two replicas that share a small counter.
use mcp_gateway_w.Prelude.{
  ℕ, ◌+◌, ◌≡◌, refl, true, List, [], ◌∷◌, none, some, Text, lit, text_beq, if◌then◌else◌, pos,
}
use mcp_gateway_w.Quota.Redis.{Scripter, RedisLimiter, redis_allow}
use mcp_gateway_w.Quota.Redis.Shared.{Request}

abbrev rdb : Scripter (Text → ℕ)
rdb = record {
  incr = λ w key. (some (w key + 1), λ j. if text_beq key j then w j + 1 else w j);
  pexpire = λ w key ms. (true, w);
}

abbrev count : (Text → ℕ) → Text → ℕ
count w key = w key

-- A limit of one request a second.
abbrev limiter : RedisLimiter
limiter = record { limit = pos 1; window = pos 1_000_000_000 }

abbrev requests : List Request
requests =
    record { time = 5_100; key = lit "org:acme" }
    ∷ record { time = 5_900; key = lit "org:acme" }
    ∷ record { time = 6_000; key = lit "org:acme" }
    ∷ []

fails_open :
    (redis_allow {W = ℕ}
      (record { incr = λ w key. (none, w); pexpire = λ w key ms. (true, w) })
      limiter
      5_100
      0
      (lit "org:acme")).0
    ≡ true
unfolding redis_allow
fails_open = refl
