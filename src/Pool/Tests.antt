-- ===== src/Pool/Tests.antt =====
-- pool.go: runs on small inputs, and the theorems at concrete pools.
use mcp_gateway_w.Prelude.{ℕ, ◌+◌, ◌≤◌, ◌≡◌, refl, List, [], ◌∷◌, none, some, pos, negsuc}
use mcp_gateway_w.Pool.{
  Config, Pool, PooledInstance, got, new, total, prewarm, acquire, release, reap, stats, close,
  Call, prewarms, acquires, releases, reaps, step, run, find, remove, assign, last_warm,
  all_but_last,
}
use mcp_gateway_w.Pool.Size.{run-new-within, prewarm-total}

runs : Unit {0}
unfolding new prewarm acquire release reap stats close step run find remove assign last_warm
    all_but_last
runs = tt

abbrev small : Config
small = record { min_warm = pos 1; max_size = pos 2; idle_timeout = pos 10 }

abbrev entry : ℕ → ℕ → PooledInstance
entry i t = record { inst = i; last_used = t }

abbrev pool_of : List PooledInstance → List PooledInstance → Pool
pool_of ws us = record { cfg = small; warm = ws; in_use = us }

abbrev two_warm : Pool
two_warm = pool_of (entry 7 3 ∷ entry 8 20 ∷ []) []

abbrev history : List Call
history =
    prewarms (λ k. some (k + 50)) (λ k. k)
    ∷ acquires 4 none
    ∷ acquires 5 (some 60)
    ∷ acquires 6 (some 61)
    ∷ releases 7 50
    ∷ reaps 40
    ∷ []

run_test : run (new small) history ≡ pool_of [] (entry 60 5 ∷ [])
unfolding runs
run_test = refl

clamped :
    (new (record { min_warm = pos 5; max_size = negsuc 3; idle_timeout = pos 1 })).cfg.min_warm
    ≡ pos 1
unfolding runs
clamped = refl

last_first : (acquire two_warm 30 none).1 ≡ got 8
unfolding runs
last_first = refl

reaped : reap two_warm 25 ≡ (pool_of (entry 7 3 ∷ entry 8 20 ∷ []) [], [])
unfolding runs
reaped = refl

busy_reaped :
    reap (pool_of (entry 7 3 ∷ entry 8 20 ∷ []) (entry 9 1 ∷ [])) 25
    ≡ (pool_of (entry 8 20 ∷ []) (entry 9 1 ∷ []), entry 7 3 ∷ [])
unfolding runs
busy_reaped = refl

counted : stats two_warm ≡ record { warm = 2; in_use = 0; total = 2 }
unfolding runs
counted = refl

closed : close two_warm ≡ (pool_of [] [], entry 7 3 ∷ entry 8 20 ∷ [])
unfolding runs
closed = refl

run-new-within_example : total (run (new small) history) ≤ 2
run-new-within_example = run-new-within small history

prewarm-total_example : total (prewarm (λ k. some k) (λ k. k) (new small)).0 ≡ 1
unfolding runs
prewarm-total_example = prewarm-total (λ k. some k) (λ k. k) (new small) refl
