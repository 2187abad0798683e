-- ===== src/Pool/Owned.antt =====
-- pool.go: the instances that the pool holds, as a multiset: none is lost, made up or shared.
use mathlib.Core.List.{
  Perm, Nodup, Mem, append_assoc, perm_middle, map-append, Nodup-cons, mem-cons_self,
  mem-cons_of_mem, mem-append_right,
}
use mathlib.Core.List.Perm
use mcp_gateway_w.Prelude.{
  ℕ, ◌≡◌, refl, subst, inl, inr, List, [], ◌∷◌, ◌++◌, map, Option, none, some, arith, nat_beq,
  nat_beq_iff, Bool-cases, Option-cases, below, length,
}
use mcp_gateway_w.Pool.{
  Config, Pool, PooledInstance, assign, find, remove, last_warm, all_but_last, take_warm,
  create_one, acquire, release,
}

abbrev pub insts : List PooledInstance → List ℕ
insts = map λ e. e.inst

-- Every instance the pool holds, the warm ones first.
abbrev pub held : Pool → List ℕ
held p = insts p.warm ++ insts p.in_use

remove-perm :
    (i : ℕ) (fs : List PooledInstance) (e : PooledInstance)
    → find i fs ≡ some e
    → Perm (insts fs) (e.inst ∷ insts (remove i fs))
unfolding find remove
remove-perm i [] e h = cc
remove-perm i (f ∷ fs) e h = elim (Bool-cases (nat_beq f.inst i)) [
  | inl hit ↦ rw hit (Perm.cons' (ground arith) Perm.rfl)
  | inr miss ↦ rw miss (
      Perm.trans (Perm.cons f.inst (remove-perm i fs e (ground arith))) (Perm.swap e.inst f.inst _))
]

split_last-perm :
    (f : PooledInstance) (fs : List PooledInstance)
    → Perm (insts (f ∷ fs)) ((last_warm f fs).inst ∷ insts (all_but_last f fs))
unfolding last_warm all_but_last
split_last-perm f [] = Perm.refl _
split_last-perm f (g ∷ gs) = Perm.trans (Perm.cons f.inst (split_last-perm g gs)) (Perm.swap _ _ _)

assign-perm :
    (e : PooledInstance) (fs : List PooledInstance)
    → ¬ Mem e.inst (insts fs)
    → Perm (insts (assign e fs)) (e.inst ∷ insts fs)
unfolding assign
assign-perm e [] h = Perm.refl _
assign-perm e (f ∷ fs) h = elim (Bool-cases (nat_beq f.inst e.inst)) [
  | inl hit ↦
      absurd
        (h (subst (λ i. Mem i (insts (f ∷ fs))) ((nat_beq_iff f.inst e.inst).0 hit) mem-cons_self))
  | inr miss ↦ rw miss (
      Perm.trans (Perm.cons f.inst (assign-perm e fs (λ m. h (mem-cons_of_mem f.inst m))))
        (Perm.swap e.inst f.inst _))
]

abbrev pool_of : Config → List PooledInstance → List PooledInstance → Pool
pool_of cfg ws us = record { cfg = cfg; warm = ws; in_use = us }

-- Putting an instance that the pool does not hold into the map of those in use.
assign-held :
    (ws : List PooledInstance) (e : PooledInstance) (us : List PooledInstance)
    → ¬ Mem e.inst (insts ws ++ insts us)
    → Perm (insts ws ++ insts (assign e us)) (e.inst ∷ (insts ws ++ insts us))
assign-held ws e us h =
    Perm.trans
      (Perm.append_left (insts ws) (assign-perm e us (λ m. h (mem-append_right (insts ws) m))))
      (perm_middle (insts ws) (insts us))

take_warm-perm :
    (cfg : Config) (now : ℕ) (f : PooledInstance) (fs us : List PooledInstance)
    → Nodup (held (pool_of cfg (f ∷ fs) us))
    → Perm (held (take_warm (pool_of cfg (f ∷ fs) us) now f fs).0) (held (pool_of cfg (f ∷ fs) us))
unfolding take_warm
take_warm-perm cfg now f fs us d =
    let out = Perm.append_right (insts us) (split_last-perm f fs) in
    Perm.trans
      (assign-held (all_but_last f fs) (record (last_warm f fs) { last_used = now }) us
        (Nodup-cons.0 (Perm.nodup out d)).0)
      (Perm.symm out)

acquire_cases :
    (cfg : Config) (now : ℕ) (made : Option ℕ) (ws us : List PooledInstance)
    → Nodup (held (pool_of cfg ws us))
    → ((j : ℕ) → made ≡ some j → ¬ Mem j (held (pool_of cfg ws us)))
    → Nodup (held (acquire (pool_of cfg ws us) now made).0)
unfolding acquire create_one
acquire_cases cfg now made (f ∷ fs) us d h =
    Perm.nodup (Perm.symm (take_warm-perm cfg now f fs us d)) d
acquire_cases cfg now none [] us d h = elim (Bool-cases (below (length us) cfg.max_size)) [
  | inl room ↦ rw room d
  | inr full ↦ rw full d
]
acquire_cases cfg now (some j) [] us d h = elim (Bool-cases (below (length us) cfg.max_size)) [
  | inl room ↦ rw room (
      Perm.nodup (Perm.symm (assign-held [] (record { inst = j; last_used = now }) us (h j refl)))
        (Nodup-cons.1 (h j refl, d)))
  | inr full ↦ rw full d
]

-- No instance is held twice, and in particular none is warm while it is assigned: `Acquire` keeps
-- this if the factory answers with an instance that the pool does not hold.
acquire-Nodup :
    (p : Pool) (now : ℕ) (made : Option ℕ)
    → Nodup (held p)
    → ((j : ℕ) → made ≡ some j → ¬ Mem j (held p))
    → Nodup (held (acquire p now made).0)
acquire-Nodup p now made = acquire_cases p.cfg now made p.warm p.in_use

-- `Release` moves an instance and neither loses one nor makes one up.
release-perm : (p : Pool) (now i : ℕ) → Perm (held (release p now i)) (held p)
unfolding release
release-perm p now i = elim (Option-cases (find i p.in_use)) [
  | inl e ↦ rw (e, release) (Perm.refl _)
  | inr (pi, e) ↦
      rw (e, release, map-append)
        (rw append_assoc
          (Perm.append_left (insts p.warm) (Perm.symm (remove-perm i p.in_use pi e))))
]
