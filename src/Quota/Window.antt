-- ===== src/Quota/Window.antt =====
-- quota.go: how many requests `Allow` lets through in one window.
use mcp_gateway_w.Prelude.{
  ℕ, min, ◌+◌, ◌-◌, ◌≤◌, ◌≡◌, refl, sym, subst, ap, inl, inr, true, false, List, [], ◌∷◌, Option,
  none, some, Text, text_beq, text_eq_iff, eq_refl, All, below, if◌then◌else◌, pos_part, arith,
  Bool-cases, nat_beq,
}
use mcp_gateway_w.Prelude.Dict.{lookup, insert, lookup-insert}
use mcp_gateway_w.Quota.{Bucket, WindowLimiter, truncate, in_bucket, allow}

-- The requests that the bucket of `key` has counted in the window from `ws`.
unfoldable pub used_in : ℕ → Option Bucket → ℕ
used_in ws none = 0
used_in ws (some b) = if nat_beq b.start ws then b.count else 0

unfoldable pub used : WindowLimiter → Text → ℕ → ℕ
unfolding used_in
used l key ws = used_in ws (lookup key l.buckets)

-- Requests one after the other, and how many of those for `key` were allowed.
unfoldable pub allowed : WindowLimiter → Text → List (ℕ × Text) → ℕ
allowed l key [] = 0
allowed l key ((now, k) ∷ rs) =
    let (l', answer) = allow l now k in
    let more = allowed l' key rs in
    if text_beq k key then (if answer then more + 1 else more) else more

-- The requests for `key`.
unfoldable pub requests : Text → List (ℕ × Text) → ℕ
requests key [] = 0
requests key ((now, k) ∷ rs) = if text_beq k key then requests key rs + 1 else requests key rs

module _ (l : WindowLimiter) (key : Text) (ws : ℕ) (limited : below 0 l.limit ≡ true) where
  -- What `Allow` answers at the bucket `o` of `key`, and what the bucket has counted afterwards.
  in_bucket-counts :
      (o : Option Bucket)
      → used_in ws o ≤ pos_part l.limit
      → lookup key l.buckets ≡ o
      → ((in_bucket l key ws o).1 ≡ below (used_in ws o) l.limit)
        × (used (in_bucket l key ws o).0 key ws ≡ min (used_in ws o + 1) (pos_part l.limit))
  unfolding in_bucket used
  in_bucket-counts none h e =
      let b : Bucket = record { start = ws; count = 0 } in
      ground (
        arith,
        eq_refl key,
        lookup-insert key key (record b { count = b.count + 1 }) (insert key b l.buckets),
      )
  in_bucket-counts (some b) h e =
      let b0 : Bucket = record { start = ws; count = 0 } in
      ground (
        arith,
        eq_refl key,
        lookup-insert key key (record b { count = b.count + 1 }) l.buckets,
        lookup-insert key key (record b0 { count = b0.count + 1 }) (insert key b0 l.buckets),
      )

  -- Another key's bucket is not touched, nor is the configuration.
  in_bucket-frame :
      (j : Text) (o : Option Bucket)
      → text_beq key j ≡ false
      → lookup j (in_bucket l key ws o).0.buckets ≡ lookup j l.buckets
  unfolding in_bucket
  in_bucket-frame j none d =
      let b : Bucket = record { start = ws; count = 0 } in
      ground (
        arith,
        lookup-insert key j b l.buckets,
        lookup-insert key j (record b { count = b.count + 1 }) (insert key b l.buckets),
      )
  in_bucket-frame j (some c) d =
      let b : Bucket = record { start = ws; count = 0 } in
      ground (
        arith,
        lookup-insert key j b l.buckets,
        lookup-insert key j (record b { count = b.count + 1 }) (insert key b l.buckets),
        lookup-insert key j (record c { count = c.count + 1 }) l.buckets,
      )

in_bucket-config :
    (l : WindowLimiter) (key : Text) (ws : ℕ) (o : Option Bucket)
    → ((in_bucket l key ws o).0.limit ≡ l.limit) × ((in_bucket l key ws o).0.window ≡ l.window)
unfolding in_bucket
in_bucket-config l key ws none = ground arith
in_bucket-config l key ws (some b) = ground arith

pub allow-config :
    (l : WindowLimiter) (now : ℕ) (key : Text)
    → ((allow l now key).0.limit ≡ l.limit) × ((allow l now key).0.window ≡ l.window)
unfolding allow
allow-config l now key =
    ground (arith, in_bucket-config l key (truncate now l.window) (lookup key l.buckets))

pub allow-frame :
    (l : WindowLimiter) (now : ℕ) (key j : Text)
    → text_beq key j ≡ false
    → lookup j (allow l now key).0.buckets ≡ lookup j l.buckets
unfolding allow
allow-frame l now key j d = elim (Bool-cases (below 0 l.limit)) [
  | inl on ↦
      rw (on, allow) (in_bucket-frame l key (truncate now l.window) on j (lookup key l.buckets) d)
  | inr off ↦ rw (off, allow) refl
]

-- One request for `key` in the window from `ws`.
allow-counts :
    (l : WindowLimiter) (now : ℕ) (key : Text) (ws : ℕ)
    → below 0 l.limit ≡ true
    → truncate now l.window ≡ ws
    → used l key ws ≤ pos_part l.limit
    → ((allow l now key).1 ≡ below (used l key ws) l.limit)
      × (used (allow l now key).0 key ws ≡ min (used l key ws + 1) (pos_part l.limit))
unfolding allow used
allow-counts l now key ws on e h =
    rw (on, e, allow) (in_bucket-counts l key ws on (lookup key l.buckets) h refl)

-- The limiter after a request keeps what the theorem below assumes of it.
allow-on :
    (l : WindowLimiter) (now : ℕ) (k : Text)
    → below 0 l.limit ≡ true
    → below 0 (allow l now k).0.limit ≡ true
allow-on l now k on = rw ((allow-config l now k).0) on

allow-window :
    (l : WindowLimiter) (now : ℕ) (k : Text) (ws : ℕ) (rs : List (ℕ × Text))
    → All (λ r. truncate r.0 l.window ≡ ws) rs
    → All (λ r. truncate r.0 (allow l now k).0.window ≡ ws) rs
allow-window l now k ws rs w =
    subst (λ d. All (λ r. truncate r.0 d ≡ ws) rs) (sym (allow-config l now k).1) w

used-frame :
    (l : WindowLimiter) (now : ℕ) (k key : Text) (ws : ℕ)
    → text_beq k key ≡ false
    → used (allow l now k).0 key ws ≡ used l key ws
unfolding used
used-frame l now k key ws d = ap (used_in ws) (allow-frame l now k key d)

-- In one window exactly the first requests for a key are allowed, up to what is left of the limit,
-- whatever other keys are requested in between.
pub allowed-eq-min :
    (l : WindowLimiter) (key : Text) (ws : ℕ) (rs : List (ℕ × Text))
    → below 0 l.limit ≡ true
    → used l key ws ≤ pos_part l.limit
    → All (λ r. truncate r.0 l.window ≡ ws) rs
    → allowed l key rs ≡ min (requests key rs) (pos_part l.limit - used l key ws)
unfolding allowed requests
allowed-eq-min l key ws [] on h w = omega arith
allowed-eq-min l key ws ((now, k) ∷ rs) on h w = elim (Bool-cases (text_beq k key)) [
  | inl same ↦
      let same_key : k ≡ key = (text_eq_iff k key).0 same in
      rw same_key (
        ground (
          arith,
          eq_refl key,
          allow-config l now key,
          allow-counts l now key ws on w.0 h,
          allowed-eq-min (allow l now key).0 key ws rs (allow-on l now key on)
              (ground (arith, allow-config l now key, allow-counts l now key ws on w.0 h))
              (allow-window l now key ws rs w.1),
        ))
  | inr other ↦ rw other (
      ground (
        arith,
        allow-config l now k,
        used-frame l now k key ws other,
        allowed-eq-min (allow l now k).0 key ws rs (allow-on l now k on)
            (ground (arith, allow-config l now k, used-frame l now k key ws other))
            (allow-window l now k ws rs w.1),
      ))
]
