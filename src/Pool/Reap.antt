-- ===== src/Pool/Reap.antt =====
-- pool.go: which idle instances `Reap` closes.
use mathlib.Core.List.{Perm, append-nil, append_assoc, perm_middle}
use mathlib.Core.List.Perm
use mcp_gateway_w.Prelude.{
  ℕ, min, ◌+◌, ◌≤◌, ◌≡◌, subst, inl, inr, true, false, List, [], ◌∷◌, ◌++◌, ◌||◌, length,
  length-append, All, All-append, below, pos_part, arith, Bool-cases,
}
use mcp_gateway_w.Pool.{Config, Pool, PooledInstance, total, is_recent, reap_loop, reap}

module _ (cfg : Config) (now used : ℕ) where
  grows : (kept ws : List PooledInstance) → length kept ≤ length (reap_loop cfg now used kept ws).0
  unfolding reap_loop
  grows kept [] = omega arith
  grows kept (w ∷ ws) =
      ground (arith, grows (kept ++ w ∷ []) ws, grows kept ws, length-append kept (w ∷ []))

  keeps_floor :
      (kept ws : List PooledInstance)
      → min (pos_part cfg.min_warm) (length kept + length ws + used)
        ≤ length (reap_loop cfg now used kept ws).0 + used
  unfolding reap_loop
  keeps_floor kept [] = omega arith
  keeps_floor kept (w ∷ ws) =
      ground (arith, keeps_floor (kept ++ w ∷ []) ws, grows kept ws, length-append kept (w ∷ []))

  closed_expired :
      (kept ws : List PooledInstance)
      → All (λ w. is_recent cfg now w ≡ false) (reap_loop cfg now used kept ws).1
  unfolding reap_loop
  closed_expired kept [] = tt
  closed_expired kept (w ∷ ws) =
      ground (arith, closed_expired (kept ++ w ∷ []) ws, closed_expired kept ws)

  partitions :
      (kept ws : List PooledInstance)
      → Perm ((reap_loop cfg now used kept ws).0 ++ (reap_loop cfg now used kept ws).1) (kept ++ ws)
  unfolding reap_loop
  partitions kept [] = rw (append-nil kept) (Perm.refl _)
  partitions kept (w ∷ ws) =
      elim (Bool-cases (below (length kept + used) cfg.min_warm || is_recent cfg now w)) [
        | inl keep ↦
            rw (keep, reap_loop)
              (subst (Perm _) (append_assoc kept (w ∷ []) ws) (partitions (kept ++ w ∷ []) ws))
        | inr drop ↦
            rw (drop, reap_loop)
              (Perm.trans (perm_middle _ _)
                (Perm.trans (Perm.cons w (partitions kept ws)) (Perm.symm (perm_middle kept ws))))
      ]

  kept_recent :
      (kept ws : List PooledInstance)
      → pos_part cfg.min_warm ≤ used
      → All (λ w. is_recent cfg now w ≡ true) kept
      → All (λ w. is_recent cfg now w ≡ true) (reap_loop cfg now used kept ws).0
  unfolding reap_loop
  kept_recent kept [] h a = a
  kept_recent kept (w ∷ ws) h a = ground (
    arith,
    kept_recent (kept ++ w ∷ []) ws h,
    kept_recent kept ws h a,
    All-append (λ w. is_recent cfg now w ≡ true) kept (w ∷ []) a,
  )

-- `Reap` closes only instances that have been idle for at least the timeout, keeps all others,
-- and loses none.
reap-closes :
    (p : Pool) (now : ℕ)
    → All (λ w. is_recent p.cfg now w ≡ false) (reap p now).1
      × Perm ((reap p now).0.warm ++ (reap p now).1) p.warm
unfolding reap
reap-closes p now =
    (closed_expired p.cfg now (length p.in_use) [] p.warm, partitions p.cfg now _ [] p.warm)

-- `Reap` leaves at least `MinWarm` instances, warm and in use, or all where there were fewer.
reap_floor : (p : Pool) (now : ℕ) → min (pos_part p.cfg.min_warm) (total p) ≤ total (reap p now).0
unfolding reap
reap_floor p now = omega (arith, keeps_floor p.cfg now (length p.in_use) [] p.warm)

-- Where the instances in use already make up `MinWarm` (always, if it is 0), no warm instance that
-- has been idle for the timeout is left.
reap_drains :
    (p : Pool) (now : ℕ)
    → pos_part p.cfg.min_warm ≤ length p.in_use
    → All (λ w. is_recent p.cfg now w ≡ true) (reap p now).0.warm
unfolding reap
reap_drains p now h = kept_recent p.cfg now (length p.in_use) [] p.warm h tt
