-- ===== src/RemoteHttp/Egress.antt =====
-- services/gateway/internal/remotehttp/safedial.go: which addresses may be dialed. An address is of
-- four or of sixteen bytes; one of sixteen that maps four is the address of these four, as `To4` reads
-- it. What the standard library's predicates test is written out.
use mcp_gateway_w.Prelude.{
  ℕ, zero, suc, ◌/◌, ◌%◌, Bool, true, false, ◌&&◌, ◌||◌, List, [], ◌∷◌, Option, none, some, Text,
  text_beq, nat_beq, if◌then◌else◌,
}

pub data Ip : Type 0 where
  v4 : ℕ → ℕ → ℕ → ℕ → Ip
  v6 : List ℕ → Ip

-- Byte `i` of an address.
abbrev pub byte : List ℕ → ℕ → ℕ
byte [] i = 0
byte (b ∷ s) i = elim i [ zero ↦ b | suc n ↦ byte s n ]

abbrev pub zeros15 : List ℕ
zeros15 = 0 ∷ 0 ∷ 0 ∷ 0 ∷ 0 ∷ 0 ∷ 0 ∷ 0 ∷ 0 ∷ 0 ∷ 0 ∷ 0 ∷ 0 ∷ 0 ∷ 0 ∷ []

unfoldable pub is_loopback : Ip → Bool
is_loopback (v4 a b c d) = nat_beq a 127
is_loopback (v6 s) = text_beq s (0 ∷ 0 ∷ 0 ∷ 0 ∷ 0 ∷ 0 ∷ 0 ∷ 0 ∷ 0 ∷ 0 ∷ 0 ∷ 0 ∷ 0 ∷ 0 ∷ 0 ∷ 1 ∷ [])

-- 10/8, 172.16/12 and 192.168/16, and fc00::/7.
unfoldable pub is_private : Ip → Bool
is_private (v4 a b c d) =
    nat_beq a 10 || (nat_beq a 172 && nat_beq (b / 16) 1) || (nat_beq a 192 && nat_beq b 168)
is_private (v6 s) = nat_beq (byte s 0 / 2) 126

-- 169.254/16 and fe80::/10.
unfoldable pub is_link_local_unicast : Ip → Bool
is_link_local_unicast (v4 a b c d) = nat_beq a 169 && nat_beq b 254
is_link_local_unicast (v6 s) = nat_beq (byte s 0) 254 && nat_beq (byte s 1 / 64) 2

unfoldable pub is_link_local_multicast : Ip → Bool
is_link_local_multicast (v4 a b c d) = nat_beq a 224 && nat_beq b 0 && nat_beq c 0
is_link_local_multicast (v6 s) = nat_beq (byte s 0) 255 && nat_beq (byte s 1 % 16) 2

unfoldable pub is_interface_local_multicast : Ip → Bool
is_interface_local_multicast (v4 a b c d) = false
is_interface_local_multicast (v6 s) = nat_beq (byte s 0) 255 && nat_beq (byte s 1 % 16) 1

unfoldable pub is_multicast : Ip → Bool
is_multicast (v4 a b c d) = nat_beq (a / 16) 14
is_multicast (v6 s) = nat_beq (byte s 0) 255

unfoldable pub is_unspecified : Ip → Bool
is_unspecified (v4 a b c d) = nat_beq a 0 && nat_beq b 0 && nat_beq c 0 && nat_beq d 0
is_unspecified (v6 s) = text_beq s (0 ∷ zeros15)

-- The address nil is blocked.
unfoldable pub is_blocked_ip : Option Ip → Bool
unfolding is_loopback is_private is_link_local_unicast is_link_local_multicast
    is_interface_local_multicast is_multicast is_unspecified
is_blocked_ip none = true
is_blocked_ip (some ip) =
    is_loopback ip
    || is_private ip
    || is_link_local_unicast ip
    || is_link_local_multicast ip
    || is_interface_local_multicast ip
    || is_multicast ip
    || is_unspecified ip

pub data DialError : Type 0 where
  blocked : Option Ip → DialError
  no_address : DialError
  refused_dial : Text → DialError
  bad_address : Text → DialError

pub data Dialed : Type 0 where
  connected : Option Ip → Dialed
  dial_error : DialError → Dialed

-- The network: splitting an address, resolving a host, and dialing an address with a port, which
-- answers `none` where it connects.
pub record Dialer (W : Type 0) : Type 0 where
  pub split_host_port : Text → Option (Text × Text)
  pub lookup_ip : W → Text → Option (List (Option Ip))
  pub dial : W → Option Ip → Text → Option Text × W

-- With the addresses that were dialed, latest first.
pub record State (W : Type 0) : Type 0 where
  pub outer : W
  pub dials : List (Option Ip)

abbrev last : Option DialError → DialError
last none = no_address
last (some e) = e

module _ {W : Type 0} (base : Dialer W) where
  -- The loop over the addresses, with the last error.
  unfoldable pub dial_ips : List (Option Ip) → State W → Text → Option DialError → Dialed × State W
  unfolding is_blocked_ip
  dial_ips [] st port e = (dial_error (last e), st)
  dial_ips (ip ∷ ips) st port e =
      let (r, w) = base.dial st.outer ip port in
      let st1 : State W = record st { outer = w; dials = ip ∷ st.dials } in
      let skipped = dial_ips ips st port (some (blocked ip)) in
      let next = λ (msg : Text). dial_ips ips st1 port (some (refused_dial msg)) in
      if is_blocked_ip ip
      then skipped
      else elim r [ none ↦ (connected ip, st1) | some msg ↦ next msg ]

  unfoldable pub guarded_dial : State W → Text → Dialed × State W
  unfolding dial_ips
  guarded_dial st addr = elim (base.split_host_port addr) [
    | none ↦ (dial_error (bad_address addr), st)
    | some hp ↦ elim (base.lookup_ip st.outer hp.0) [
      | none ↦ (dial_error (bad_address hp.0), st)
      | some ips ↦ dial_ips ips st hp.1 none
    ]
  ]
