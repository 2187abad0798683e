-- ===== src/Pool/Size.antt =====
-- pool.go: how many instances there are, and what `Acquire` answers.
use mcp_gateway_w.Prelude.{
  ℕ, zero, suc, max, ◌+◌, ◌≤◌, ◌<◌, ◌≡◌, refl, inl, inr, ◌↔◌, List, [], ◌∷◌, ◌++◌, Option, none,
  some, length, length-append, below, pos_part, arith, Bool-cases, Option-cases,
}
use mcp_gateway_w.Pool.{
  Config, Pool, PooledInstance, exhausted, refused, new, total, assign, find, remove, prewarm_loop,
  prewarm, last_warm, all_but_last, acquire, release, reap_loop, reap, close, Call, prewarms,
  acquires, releases, reaps, closes, step, run,
}

pub record Inv (cap : ℕ) (p : Pool) : Type 0 where
  pub capped : pos_part p.cfg.max_size ≤ cap
  pub within : total p ≤ pos_part p.cfg.max_size
  pub floor : pos_part p.cfg.min_warm ≤ pos_part p.cfg.max_size
  pub nonzero : 0 < pos_part p.cfg.max_size

length-assign :
    (e : PooledInstance) (fs : List PooledInstance) → length (assign e fs) ≤ length fs + 1
unfolding assign
length-assign e [] = omega arith
length-assign e (f ∷ fs) = ground (arith, length-assign e fs)

length-remove :
    (i : ℕ) (fs : List PooledInstance) (e : PooledInstance)
    → find i fs ≡ some e
    → length (remove i fs) + 1 ≡ length fs
unfolding find remove
length-remove i [] e h = cc
length-remove i (f ∷ fs) e h = ground (arith, length-remove i fs e)

length-all_but_last :
    (f : PooledInstance) (fs : List PooledInstance) → length (all_but_last f fs) ≡ length fs
unfolding all_but_last
length-all_but_last f [] = omega arith
length-all_but_last f (g ∷ gs) = omega (arith, length-all_but_last g gs)

reap_loop-length :
    (cfg : Config) (now used : ℕ) (kept ws : List PooledInstance)
    → length (reap_loop cfg now used kept ws).0 + length (reap_loop cfg now used kept ws).1
      ≡ length kept + length ws
unfolding reap_loop
reap_loop-length cfg now used kept [] = omega arith
reap_loop-length cfg now used kept (w ∷ ws) = ground (
  arith,
  reap_loop-length cfg now used (kept ++ w ∷ []) ws,
  reap_loop-length cfg now used kept ws,
  length-append kept (w ∷ []),
)

new-Inv : (cfg : Config) → Inv (max 1 (pos_part cfg.max_size)) (new cfg)
unfolding new
new-Inv cfg = ground arith

prewarm_loop-Inv :
    {cap : ℕ} (factory : ℕ → Option ℕ) (clock : ℕ → ℕ) (rounds k : ℕ) (p : Pool)
    → Inv cap p
    → Inv cap (prewarm_loop factory clock rounds k p).0
unfolding prewarm_loop
prewarm_loop-Inv factory clock zero k p v = v
prewarm_loop-Inv factory clock (suc rounds) k p v =
    elim (Bool-cases (below (total p) p.cfg.min_warm)) [
      | inr done ↦ rw (done, prewarm_loop) v
      | inl more ↦ elim (Option-cases (factory k)) [
        | inl failed ↦ rw (more, failed, prewarm_loop) v
        | inr (i, made) ↦
            rw (more, made, prewarm_loop)
              (prewarm_loop-Inv factory clock rounds (suc k) _ (
                ground
                  (arith, length-append p.warm (record { inst = i; last_used = clock k } ∷ []))))
      ]
    ]

acquire-Inv :
    {cap : ℕ} (p : Pool) (now : ℕ) (made : Option ℕ) (ws : List PooledInstance)
    → p.warm ≡ ws
    → Inv cap p
    → Inv cap (acquire p now made).0
unfolding acquire
acquire-Inv p now none [] e v = ground arith
acquire-Inv p now (some i) [] e v =
    ground (arith, length-assign (record { inst = i; last_used = now }) p.in_use)
acquire-Inv p now made (f ∷ fs) e v = ground (
  arith,
  length-assign (record (last_warm f fs) { last_used = now }) p.in_use,
  length-all_but_last f fs,
)

release-Inv : {cap : ℕ} (p : Pool) (now i : ℕ) → Inv cap p → Inv cap (release p now i)
unfolding release
release-Inv p now i v = elim (Option-cases (find i p.in_use)) [
  | inl e ↦ rw (e, release) v
  | inr (pi, e) ↦
      rw (e, release)
        (ground (
          arith,
          length-remove i p.in_use pi,
          length-append p.warm (record pi { last_used = now } ∷ []),
        ))
]

-- Every method keeps the number of instances, warm and in use, within `MaxSize`.
step-Inv : {cap : ℕ} (p : Pool) (c : Call) → Inv cap p → Inv cap (step p c)
unfolding step prewarm reap close
step-Inv p (prewarms factory clock) v = prewarm_loop-Inv factory clock _ 0 p v
step-Inv p (acquires now made) v = acquire-Inv p now made p.warm refl v
step-Inv p (releases now i) v = release-Inv p now i v
step-Inv p (reaps now) v = ground (arith, reap_loop-length p.cfg now (length p.in_use) [] p.warm)
step-Inv p closes v = ground arith

run-Inv : {cap : ℕ} (p : Pool) (cs : List Call) → Inv cap p → Inv cap (run p cs)
unfolding run
run-Inv p [] v = v
run-Inv p (c ∷ cs) v = run-Inv (step p c) cs (step-Inv p c v)

-- Whatever is called after `New`, the warm and assigned instances together never exceed the
-- configured `MaxSize`, or 1 where that is below 1.
pub run-new-within :
    (cfg : Config) (cs : List Call) → total (run (new cfg) cs) ≤ max 1 (pos_part cfg.max_size)
run-new-within cfg cs =
    let v = run-Inv (new cfg) cs (new-Inv cfg) in omega (arith, v.within, v.capped)

prewarm_loop-total :
    (factory : ℕ → Option ℕ) (clock : ℕ → ℕ) (rounds k : ℕ) (p : Pool)
    → pos_part p.cfg.min_warm ≤ rounds + total p
    → (prewarm_loop factory clock rounds k p).1 ≡ none
    → total (prewarm_loop factory clock rounds k p).0 ≡ max (total p) (pos_part p.cfg.min_warm)
unfolding prewarm_loop
prewarm_loop-total factory clock zero k p h e = omega arith
prewarm_loop-total factory clock (suc rounds) k p h e =
    elim (Bool-cases (below (total p) p.cfg.min_warm)) [
      | inr done ↦ rw (done, prewarm_loop) (ground arith)
      | inl more ↦ elim (Option-cases (factory k)) [
        | inl failed ↦ absurd (cc (rw (more, failed, prewarm_loop) at e))
        | inr (i, made) ↦
            rw (more, made, prewarm_loop)
              (ground (
                arith,
                length-append p.warm (record { inst = i; last_used = clock k } ∷ []),
                prewarm_loop-total factory clock rounds (suc k)
                    (record p { warm = p.warm ++ record { inst = i; last_used = clock k } ∷ [] })
                    (ground
                      (arith, length-append p.warm (record { inst = i; last_used = clock k } ∷ [])))
                    (rw (more, made, prewarm_loop) at e),
              ))
      ]
    ]

-- `Prewarm` ends, and unless the factory fails there are then exactly as many instances as before
-- or `MinWarm`, whichever is more.
pub prewarm-total :
    (factory : ℕ → Option ℕ) (clock : ℕ → ℕ) (p : Pool)
    → (prewarm factory clock p).1 ≡ none
    → total (prewarm factory clock p).0 ≡ max (total p) (pos_part p.cfg.min_warm)
unfolding prewarm
prewarm-total factory clock p = prewarm_loop-total factory clock _ 0 p (omega arith)

acquire-exhausted :
    (p : Pool) (now : ℕ) (made : Option ℕ) (ws : List PooledInstance)
    → p.warm ≡ ws
    → ((acquire p now made).1 ≡ refused exhausted)
      ↔ ((p.warm ≡ []) × (pos_part p.cfg.max_size ≤ length p.in_use))
unfolding acquire
acquire-exhausted p now none [] e = ground arith
acquire-exhausted p now (some i) [] e = ground arith
acquire-exhausted p now made (f ∷ fs) e = ground arith

-- `Acquire` refuses with `ErrExhausted` exactly when no instance is warm and `MaxSize` are in use.
acquire-exhausted_iff :
    (p : Pool) (now : ℕ) (made : Option ℕ)
    → ((acquire p now made).1 ≡ refused exhausted)
      ↔ ((p.warm ≡ []) × (pos_part p.cfg.max_size ≤ length p.in_use))
acquire-exhausted_iff p now made = acquire-exhausted p now made p.warm refl
