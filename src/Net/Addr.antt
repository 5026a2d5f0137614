-- ===== src/Net/Addr.antt =====
-- The IPv4 address macros of ipv4/lwip/ip_addr.h: octets, and the multicast range.
use ps2eth.Prelude.{
  ℕ, ◌+◌, ◌*◌, ◌/◌, ◌%◌, ◌^◌, ◌<◌, ◌≤◌, bit_and, ◌≡◌, refl, true, arith, bit_and_low,
  bit_and_window, ◌↔◌,
}
use ps2eth.Net.{
  htonl, ntohl, ip4_addr, ip4_addr1, ip4_addr2, ip4_addr3, ip4_addr4, ip_addr_ismulticast,
}
use ps2eth.Net.Swap.{byte, htonl-eq, bit_or_bytes}

pub ip4_addr-eq :
    (a b c d : ℕ)
    → a < 256
    → b < 256
    → c < 256
    → d < 256
    → ip4_addr a b c d ≡ d * 2 ^ 24 + c * 2 ^ 16 + b * 2 ^ 8 + a
unfolding ip4_addr
ip4_addr-eq a b c d ha hb hc hd =
    let e0 : bit_and a 0xff * 2 ^ 24 % 2 ^ 32 ≡ a * 2 ^ 24 = omega (arith, bit_and_low 8 a) in
    let e1 : bit_and b 0xff * 2 ^ 16 % 2 ^ 32 ≡ b * 2 ^ 16 = omega (arith, bit_and_low 8 b) in
    let e2 : bit_and c 0xff * 2 ^ 8 % 2 ^ 32 ≡ c * 2 ^ 8 = omega (arith, bit_and_low 8 c) in
    let e3 : bit_and d 0xff ≡ d = omega (arith, bit_and_low 8 d) in
    rw (e0, e1, e2, e3, bit_or_bytes a b c d hb hc hd)
      (omega (arith, htonl-eq (a * 2 ^ 24 + b * 2 ^ 16 + c * 2 ^ 8 + d)))

-- The macros `ip4_addr1` to `ip4_addr4` read the bytes of the stored address from the lowest on.
pub octets-eq :
    (a : ℕ)
    → (ip4_addr1 a ≡ byte 0 a)
      × (ip4_addr2 a ≡ byte 1 a)
      × (ip4_addr3 a ≡ byte 2 a)
      × (ip4_addr4 a ≡ byte 3 a)
unfolding ip4_addr1 ip4_addr2 ip4_addr3 ip4_addr4 ntohl
octets-eq a =
    rw
      (
        bit_and_low 8 (htonl a / 2 ^ 24 % 2 ^ 8),
        bit_and_low 8 (htonl a / 2 ^ 16 % 2 ^ 8),
        bit_and_low 8 (htonl a / 2 ^ 8 % 2 ^ 8),
        bit_and_low 8 (htonl a % 2 ^ 8),
      )
      (omega (arith, htonl-eq a))

-- An address written by `IP4_ADDR` from four octets has exactly these octets.
pub octets-ip4_addr :
    (a b c d : ℕ)
    → a < 256
    → b < 256
    → c < 256
    → d < 256
    → let ip = ip4_addr a b c d in
      (ip4_addr1 ip ≡ a) × (ip4_addr2 ip ≡ b) × (ip4_addr3 ip ≡ c) × (ip4_addr4 ip ≡ d)
octets-ip4_addr a b c d ha hb hc hd =
    omega (arith, octets-eq (ip4_addr a b c d), ip4_addr-eq a b c d ha hb hc hd)

multicast_consts : (ntohl 0xf000_0000 ≡ 15 * 2 ^ 4) × (ntohl 0xe000_0000 ≡ 224)
unfolding ntohl htonl
multicast_consts = (refl, refl)

-- The multicast test holds exactly of the addresses 224.0.0.0 to 239.255.255.255.
pub ip_addr_ismulticast_iff :
    (a : ℕ) → (ip_addr_ismulticast a ≡ true) ↔ ((224 ≤ ip4_addr1 a) × (ip4_addr1 a ≤ 239))
unfolding ip_addr_ismulticast
ip_addr_ismulticast_iff a =
    rw (multicast_consts.0, multicast_consts.1, bit_and_window 4 4 a, (octets-eq a).0)
      ((λ e. ground arith), λ h. ground arith)
