-- ===== src/Pool.antt =====
-- services/sandbox-supervisor/internal/pool/pool.go: the warm pool of sandbox instances.
-- An instance is known by its identity, a number. The factory and the clock are not part of the
-- file: a call takes what they answer. Times and the idle timeout are in nanoseconds; the
-- configuration's `int` and `Duration` are signed. Each method holds the mutex from its first line
-- to its last, so a history of the pool is a list of calls. What a method closes is in its result.
mod Size
mod Reap
mod Owned
mod Tests
use mcp_gateway_w.Prelude.{
  ℕ, zero, suc, ◌+◌, ◌-◌, Bool, true, false, ◌||◌, List, [], ◌∷◌, ◌++◌, map, Option, none, some,
  length, ltb, below, if◌then◌else◌, pos, ℤ, pos_part, neg_part, nat_beq,
}

pub record Config : Type 0 where
  pub min_warm : ℤ
  pub max_size : ℤ
  pub idle_timeout : ℤ

pub record PooledInstance : Type 0 where
  pub inst : ℕ
  pub last_used : ℕ

-- `warm` is in slice order; `in_use` is the map from an instance to its entry.
pub record Pool : Type 0 where
  pub cfg : Config
  pub warm : List PooledInstance
  pub in_use : List PooledInstance

pub record Stats : Type 0 where
  pub warm : ℕ
  pub in_use : ℕ
  pub total : ℕ

pub data Error : Type 0 where
  exhausted factory_failed : Error

clamp_max : Config → Config
clamp_max cfg = if below 0 cfg.max_size then cfg else record cfg { max_size = pos 1 }

clamp_min : Config → Config
clamp_min cfg =
    if below (pos_part cfg.max_size) cfg.min_warm
    then record cfg { min_warm = cfg.max_size }
    else cfg

-- After the first test `max_size` is at least 1, so the second may compare its positive part.
pub new : Config → Pool
unfolding clamp_max clamp_min
new cfg = record { cfg = clamp_min (clamp_max cfg); warm = []; in_use = [] }

abbrev pub total : Pool → ℕ
total p = length p.warm + length p.in_use

-- Writing and deleting a key of the map `inUse`.
pub assign : PooledInstance → List PooledInstance → List PooledInstance
assign e [] = e ∷ []
assign e (f ∷ fs) = if nat_beq f.inst e.inst then e ∷ fs else f ∷ assign e fs

pub find : ℕ → List PooledInstance → Option PooledInstance
find i [] = none
find i (f ∷ fs) = if nat_beq f.inst i then some f else find i fs

pub remove : ℕ → List PooledInstance → List PooledInstance
remove i [] = []
remove i (f ∷ fs) = if nat_beq f.inst i then fs else f ∷ remove i fs

-- The loop of `Prewarm`. `factory k` and `clock k` are the answers to the call of round k, and
-- `rounds` bounds the rounds that are left.
prewarm_loop : (ℕ → Option ℕ) → (ℕ → ℕ) → ℕ → ℕ → Pool → Pool × Option Error
prewarm_loop factory clock zero k p = (p, none)
prewarm_loop factory clock (suc rounds) k p = elim (below (total p) p.cfg.min_warm) [
  | false ↦ (p, none)
  | true ↦ elim (factory k) [
    | none ↦ (p, some factory_failed)
    | some i ↦
        prewarm_loop factory clock rounds (suc k)
          (record p { warm = p.warm ++ record { inst = i; last_used = clock k } ∷ [] })
  ]
]

pub prewarm : (ℕ → Option ℕ) → (ℕ → ℕ) → Pool → Pool × Option Error
unfolding prewarm_loop
prewarm factory clock p = prewarm_loop factory clock (pos_part p.cfg.min_warm) 0 p

-- `warm[n-1]` and `warm[:n-1]` of a slice that holds `f` and then `fs`.
pub last_warm : PooledInstance → List PooledInstance → PooledInstance
last_warm f [] = f
last_warm f (g ∷ gs) = last_warm g gs

pub all_but_last : PooledInstance → List PooledInstance → List PooledInstance
all_but_last f [] = []
all_but_last f (g ∷ gs) = f ∷ all_but_last g gs

pub data Acquired : Type 0 where
  got : ℕ → Acquired
  refused : Error → Acquired

take_warm : Pool → ℕ → PooledInstance → List PooledInstance → Pool × Acquired
take_warm p now f fs = (
  record p { warm = all_but_last f fs; in_use = assign (record pi { last_used = now }) p.in_use },
  got pi.inst,
)
  where
    pi : PooledInstance
    pi = last_warm f fs

create_one : Pool → ℕ → Option ℕ → Pool × Acquired
create_one p now none = (p, refused factory_failed)
create_one p now (some i) =
    (record p { in_use = assign (record { inst = i; last_used = now }) p.in_use }, got i)

-- `made` is what the factory answers, if it is called.
pub acquire : Pool → ℕ → Option ℕ → Pool × Acquired
unfolding take_warm create_one
acquire p now made = elim p.warm [
  | f ∷ fs ↦ take_warm p now f fs
  | [] ↦
      if below (length p.in_use) p.cfg.max_size
      then create_one p now made
      else (p, refused exhausted)
]

pub release : Pool → ℕ → ℕ → Pool
release p now i = elim (find i p.in_use) [
  | none ↦ p
  | some pi ↦ record p {
    in_use = remove i p.in_use;
    warm = p.warm ++ record pi { last_used = now } ∷ [];
  }
]

-- `lastUsed.After(now.Add(-idleTimeout))`.
abbrev pub is_recent : Config → ℕ → PooledInstance → Bool
is_recent cfg now pi =
    ltb (now + neg_part cfg.idle_timeout) (pi.last_used + pos_part cfg.idle_timeout)

-- The loop of `Reap`: the entries that are kept, and the instances that are closed.
reap_loop :
    Config
    → ℕ
    → ℕ
    → List PooledInstance
    → List PooledInstance
    → List PooledInstance × List PooledInstance
reap_loop cfg now used kept [] = (kept, [])
reap_loop cfg now used kept (pi ∷ rest) =
    elim (below (length kept + used) cfg.min_warm || is_recent cfg now pi) [
      | true ↦ reap_loop cfg now used (kept ++ pi ∷ []) rest
      | false ↦ let (k, c) = reap_loop cfg now used kept rest in (k, pi ∷ c)
    ]

pub reap : Pool → ℕ → Pool × List PooledInstance
unfolding reap_loop
reap p now =
    let (kept, closed) = reap_loop p.cfg now (length p.in_use) [] p.warm in
    (record p { warm = kept }, closed)

pub stats : Pool → Stats
stats p = record { warm = length p.warm; in_use = length p.in_use; total = total p }

pub close : Pool → Pool × List PooledInstance
close p = (record p { warm = []; in_use = [] }, p.warm ++ p.in_use)

-- A history of calls.
pub data Call : Type 0 where
  prewarms : (ℕ → Option ℕ) → (ℕ → ℕ) → Call
  acquires : ℕ → Option ℕ → Call
  releases : ℕ → ℕ → Call
  reaps : ℕ → Call
  closes : Call

pub step : Pool → Call → Pool
step p (prewarms factory clock) = (prewarm factory clock p).0
step p (acquires now made) = (acquire p now made).0
step p (releases now i) = release p now i
step p (reaps now) = (reap p now).0
step p closes = (close p).0

pub run : Pool → List Call → Pool
run p [] = p
run p (c ∷ cs) = run (step p c) cs
