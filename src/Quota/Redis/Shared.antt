-- ===== src/Quota/Redis/Shared.antt =====
-- redis.go: how many requests of one window pass, whichever replica they come to.
use mcp_gateway_w.Prelude.{
  ℕ, suc, ◌+◌, ◌/◌, ◌≡◌, Bool, true, ◌&&◌, List, [], ◌∷◌, some, Text, text_beq, nat_beq,
  if◌then◌else◌,
}
use mcp_gateway_w.Quota.Redis.{Scripter, RedisLimiter, window_ms, redis_allow}

-- What Redis documents of its two commands while the keys of the window last: INCR answers the count of
-- the key and one, which is then its count, and changes no other; PEXPIRE sets the time to live of a
-- key and changes no count.
pub record Counts {W : Type 0} (rdb : Scripter W) (count : W → Text → ℕ) : Type 0 where
  pub answered : (w : W) (key : Text) → (rdb.incr w key).0 ≡ some (count w key + 1)
  pub counted :
      (w : W) (key j : Text)
      → count (rdb.incr w key).1 j ≡ (if text_beq key j then count w j + 1 else count w j)
  pub expires : (w : W) (key : Text) (ms : ℕ) → (rdb.pexpire w key ms).0 ≡ true
  pub kept : (w : W) (key j : Text) (ms : ℕ) → count (rdb.pexpire w key ms).1 j ≡ count w j

-- A request that comes to some replica, with the replica's time.
pub record Request : Type 0 where
  pub time : ℕ
  pub key : Text

-- The window number `idx` of the key `key`.
module _ {W : Type 0} (rdb : Scripter W) (l : RedisLimiter) (key : Text) (idx : ℕ) where
  abbrev is_of : Request → Bool
  is_of r = text_beq r.key key && nat_beq (r.time / window_ms l) idx

  -- The requests for the key in the window, and those of them that pass.
  unfoldable pub asked : List Request → ℕ
  asked [] = 0
  asked (r ∷ rs) = let rest = asked rs in if is_of r then suc rest else rest

  unfoldable pub passed : W → List Request → ℕ
  passed w [] = 0
  passed w (r ∷ rs) =
      let (ok, w1) = redis_allow rdb l r.time w r.key in
      let rest = passed w1 rs in if is_of r then (if ok then suc rest else rest) else rest
