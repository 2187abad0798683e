-- ===== src/RemoteHttp/Dialing.antt =====
-- safedial.go: what the guarded dialer connects to.
use mcp_gateway_w.Prelude.{
  ℕ, ◌≤◌, ◌≡◌, ◌≢◌, inl, inr, false, Bool-cases, Option-cases, List, [], ◌∷◌, Option, none, some,
  Text, text_eq_iff, All, arith,
}
use mcp_gateway_w.RemoteHttp.Egress.{
  Ip, v4, v6, byte, zeros15, is_blocked_ip, DialError, Dialed, connected, dial_error, Dialer, State,
  dial_ips, guarded_dial,
}

-- What a public address is not. Of four bytes: this host (0.0.0.0, 127/8), a private network (10/8,
-- 172.16/12, 192.168/16), the link (169.254/16, with the metadata services), a group (224/4).
abbrev pub IsPublic4 : ℕ → ℕ → ℕ → ℕ → Type 0
IsPublic4 a b c d =
    (a ≢ 127)
    × (a ≢ 10)
    × ¬ ((a ≡ 172) × (16 ≤ b) × (b ≤ 31))
    × ¬ ((a ≡ 192) × (b ≡ 168))
    × ¬ ((a ≡ 169) × (b ≡ 254))
    × ¬ ((224 ≤ a) × (a ≤ 239))
    × ¬ ((a ≡ 0) × (b ≡ 0) × (c ≡ 0) × (d ≡ 0))

-- Of sixteen: `::` and `::1`, fc00::/7, fe80::/10 and ff00::/8.
abbrev pub IsPublic6 : List ℕ → Type 0
IsPublic6 s =
    (s ≢ 0 ∷ zeros15)
    × (s ≢ 0 ∷ 0 ∷ 0 ∷ 0 ∷ 0 ∷ 0 ∷ 0 ∷ 0 ∷ 0 ∷ 0 ∷ 0 ∷ 0 ∷ 0 ∷ 0 ∷ 0 ∷ 1 ∷ [])
    × ¬ ((252 ≤ byte s 0) × (byte s 0 ≤ 253))
    × ¬ ((byte s 0 ≡ 254) × (128 ≤ byte s 1) × (byte s 1 ≤ 191))
    × (byte s 0 ≢ 255)

abbrev pub IsPublic : Option Ip → Type 0
IsPublic none = ⊥
IsPublic (some (v4 a b c d)) = IsPublic4 a b c d
IsPublic (some (v6 s)) = IsPublic6 s

not_blocked-IsPublic : (ip : Option Ip) → is_blocked_ip ip ≡ false → IsPublic ip
unfolding is_blocked_ip
not_blocked-IsPublic none h = cc
not_blocked-IsPublic (some (v4 a b c d)) h = (
  ground arith,
  ground arith,
  λ x. ground arith,
  λ x. ground arith,
  λ x. ground arith,
  λ x. ground arith,
  λ x. ground arith,
)
not_blocked-IsPublic (some (v6 s)) h = (
  ground (arith, text_eq_iff s (0 ∷ zeros15)),
  ground
      (arith, text_eq_iff s (0 ∷ 0 ∷ 0 ∷ 0 ∷ 0 ∷ 0 ∷ 0 ∷ 0 ∷ 0 ∷ 0 ∷ 0 ∷ 0 ∷ 0 ∷ 0 ∷ 0 ∷ 1 ∷ [])),
  λ x. ground arith,
  λ x. ground arith,
  ground arith,
)

abbrev pub IsPublicDial : Dialed → Type 0
IsPublicDial (connected ip) = IsPublic ip
IsPublicDial (dial_error e) = Unit

module _ {W : Type 0} (base : Dialer W) where
  dial_ips-IsPublic :
      (ips : List (Option Ip)) (st : State W) (port : Text) (e : Option DialError)
      → All IsPublic st.dials
      → let r = dial_ips base ips st port e in All IsPublic r.1.dials × IsPublicDial r.0
  unfolding dial_ips
  dial_ips-IsPublic [] st port e a = (a, tt)
  dial_ips-IsPublic (ip ∷ ips) st port e a = elim (Bool-cases (is_blocked_ip ip)) [
    | inl b ↦ rw (b, dial_ips) (dial_ips-IsPublic ips st port _ a)
    | inr b ↦
        let p = not_blocked-IsPublic ip b in
        let w = (base.dial st.outer ip port).1 in
        elim (Option-cases (base.dial st.outer ip port).0) [
          | inl f ↦ rw (b, f, dial_ips) (((p, a), p))
          | inr (msg, f) ↦
              rw (b, f, dial_ips)
                (dial_ips-IsPublic ips (record st { outer = w; dials = ip ∷ st.dials }) port _
                  (p, a))
        ]
  ]

  -- Whatever a host resolves to, every address that the guarded dialer dials is public, and so is that
  -- of the connection which it gives: it is outside the ranges that `IsPublic4` and `IsPublic6` name.
  pub guarded_dial-IsPublic :
      (st : State W) (addr : Text)
      → All IsPublic st.dials
      → All IsPublic (guarded_dial base st addr).1.dials
        × IsPublicDial (guarded_dial base st addr).0
  unfolding guarded_dial
  guarded_dial-IsPublic st addr a = elim (Option-cases (base.split_host_port addr)) [
    | inl e ↦ rw (e, guarded_dial) (a, tt)
    | inr (hp, e) ↦ elim (Option-cases (base.lookup_ip st.outer hp.0)) [
      | inl f ↦ rw (e, f, guarded_dial) (a, tt)
      | inr (ips, f) ↦ rw (e, f, guarded_dial) (dial_ips-IsPublic ips st hp.1 none a)
    ]
  ]
