-- ===== src/Klsi/Log.antt =====
-- ps2klsi/driver.c, the log: `chksum`, `set_udp_log`, and `udp_log`, which builds a UDP packet by hand.
-- A string is the list of its characters before the terminating zero.
pub mod Sums
pub mod Verifies
mod Tests
use ps2eth.Prelude.{
  ℕ, zero, suc, ◌+◌, ◌-◌, ◌*◌, ◌/◌, ◌%◌, ◌^◌, bit_and, Option, none, some, List, [], ◌∷◌, ◌++◌,
  ◌==◌, leb, length, if◌then◌else◌,
}
use ps2eth.Net.{u8, u16, u32, htons, htonl, IpAddr, EthAddr, ip4_addr}
use ps2eth.Packet.Wire.{le16, le32}

-- The loop of `chksum` from the sum `acc` on: the 16-bit words of the data, and an odd byte at the end.
unfoldable pub chksum_loop : ℕ → List ℕ → ℕ
chksum_loop acc [] = acc
chksum_loop acc (b ∷ []) = u32 (acc + htons (u16 (bit_and b 0xff * 2 ^ 8)))
chksum_loop acc (a ∷ (b ∷ bytes)) = chksum_loop (u32 (acc + (a + b * 2 ^ 8))) bytes

unfoldable pub chksum : List ℕ → ℕ
chksum bytes = chksum_loop 0 bytes

-- `while ( chk_sum >> 16 )`, with fuel.
unfoldable pub fold_loop : ℕ → ℕ → Option ℕ
fold_loop zero chk_sum = none
fold_loop (suc n) chk_sum =
    let rest = fold_loop n (u32 (bit_and chk_sum 0xffff + chk_sum / 2 ^ 16)) in
    if chk_sum / 2 ^ 16 == 0 then some chk_sum else rest

-- `~(chk_sum & 0x0000ffffUL)`, in a field of 16 bits.
unfoldable pub complement : ℕ → ℕ
complement chk_sum = u16 (0xffff_ffff - bit_and chk_sum 0xffff)

abbrev pub eth_dst : EthAddr
eth_dst = 0x00 ∷ 0xD0 ∷ 0x59 ∷ 0xB5 ∷ 0xF0 ∷ 0x84 ∷ []

abbrev pub eth_src : EthAddr
eth_src = 0x00 ∷ 0x02 ∷ 0xe3 ∷ 0x01 ∷ 0x82 ∷ 0x72 ∷ []

abbrev pub ip_src : IpAddr
ip_src = ip4_addr 172 16 10 254

abbrev pub ip_dst : IpAddr
ip_dst = ip4_addr 172 16 10 40

-- The fields of `struct full_udp` from `ip_ver_hlen` to `ip_dst`, as bytes.
unfoldable pub ip_header : (pkt_len ip_chksum : ℕ) → List ℕ
ip_header pkt_len ip_chksum =
    0x45
    ∷ 0x00
    ∷ (le16 (htons pkt_len)
        ++ (le16 0
            ++ (0x00 ∷ 0x00 ∷ 0x80 ∷ 0x11 ∷ (le16 ip_chksum ++ (le32 ip_src ++ le32 ip_dst)))))

-- From `udp_src_port` to `udp_chksum`.
unfoldable pub udp_header : (log_len udp_chksum : ℕ) → List ℕ
udp_header log_len udp_chksum =
    le16 (htons 0x0456)
    ++ (le16 (htons 1110) ++ (le16 (htons (u16 (log_len + 8))) ++ le16 udp_chksum))

-- What `udp_log` adds for the pseudo-header.
unfoldable pub pseudo_sum : ℕ → ℕ
pseudo_sum log_len =
    htons (bit_and (htonl ip_dst) 0xffff_0000 / 2 ^ 16)
    + htons (bit_and (htonl ip_dst) 0xffff)
    + htons (bit_and (htonl ip_src) 0xffff_0000 / 2 ^ 16)
    + htons (bit_and (htonl ip_src) 0xffff)
    + htons 17
    + htons (u16 (8 + log_len))

-- The size of `udp_buffer`, and the offset of `data` in `struct full_udp`.
abbrev pub udp_buffer_size : ℕ
udp_buffer_size = 1024

abbrev pub header_size : ℕ
header_size = 44

-- The checksums of the two headers: the loops `while ( chk_sum >> 16 )` take the fuel.
unfoldable pub ip_chksum : ℕ → ℕ → Option ℕ
ip_chksum fuel pkt_len = elim (fold_loop fuel (chksum (ip_header pkt_len 0))) [
  | none ↦ none
  | some s ↦ some (complement s)
]

unfoldable pub udp_chksum : ℕ → List ℕ → Option ℕ
udp_chksum fuel log =
    elim (fold_loop fuel
      (u32 (chksum (udp_header (length log) 0 ++ log) + pseudo_sum (length log)))) [
        | none ↦ none
        | some s ↦ some (complement s)
      ]

-- What `kue_do_transfer` is given to send.
unfoldable pub full_udp : List ℕ → (ip_sum udp_sum : ℕ) → List ℕ
full_udp log ip_sum udp_sum =
    let pkt_len = u16 (length log + 20 + 8) in
    u8 (pkt_len + 14)
    ∷ u8 ((pkt_len + 14) / 2 ^ 8)
    ∷ (eth_dst
        ++ (eth_src
            ++ (le16 (htons 0x800)
                ++ (ip_header pkt_len ip_sum ++ (udp_header (length log) udp_sum ++ log)))))

-- How `udp_log` ends: nothing to do, a write of `strcpy` past the end of `udp_buffer`, no fuel, or a
-- transfer.
pub data Logged : Type 0 where
  silent overflow no_fuel : Logged
  logged : List ℕ → Logged

unfoldable pub logged_as : List ℕ → Option ℕ → Option ℕ → Logged
logged_as log none udp = no_fuel
logged_as log (some s) none = no_fuel
logged_as log (some s) (some u) = logged (full_udp log s u)

unfoldable pub udp_log : ℕ → (udp_log_init : ℕ) → List ℕ → Logged
udp_log fuel udp_log_init log =
    if udp_log_init == 0
    then silent
    else if leb (header_size + length log + 1) udp_buffer_size
    then logged_as log (ip_chksum fuel (u16 (length log + 20 + 8))) (udp_chksum fuel log)
    else overflow
