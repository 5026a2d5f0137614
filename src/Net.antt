-- ===== src/Net.antt =====
-- common/include: the integer types of lwip/arch.h, the byte-order functions at the end of
-- common/lwip/etharp.c, the macros of ipv4/lwip/ip_addr.h, the packed structs of netif/etharp.h and
-- ipv4/lwip/ip.h, and the part of `struct netif` that the ARP module reads.
-- The target is little-endian (arch.h), so the functions and not the identity macros are compiled.
pub mod Swap
pub mod Addr
pub mod Copy
mod Tests
use ps2eth.Prelude.{
  ℕ, zero, suc, ◌+◌, ◌-◌, ◌*◌, ◌/◌, ◌%◌, ◌^◌, bit_and, bit_or, Bool, true, ◌||◌, Option, none, some,
  List, ◌==◌, get_or, set, if◌then◌else◌,
}

abbrev pub u8 : ℕ → ℕ
u8 n = n % 2 ^ 8

abbrev pub u16 : ℕ → ℕ
u16 n = n % 2 ^ 16

abbrev pub u32 : ℕ → ℕ
u32 n = n % 2 ^ 32

-- `~m` on 32 bits.
abbrev pub not32 : ℕ → ℕ
not32 m = 0xffff_ffff - m

unfoldable pub htons : ℕ → ℕ
htons n = u16 (bit_or (bit_and n 0xff * 2 ^ 8) (bit_and n 0xff00 / 2 ^ 8))

unfoldable pub ntohs : ℕ → ℕ
ntohs n = htons n

unfoldable pub htonl : ℕ → ℕ
htonl n =
    bit_or
      (bit_or (bit_or (u32 (bit_and n 0xff * 2 ^ 24)) (u32 (bit_and n 0xff00 * 2 ^ 8)))
        (bit_and n 0xff_0000 / 2 ^ 8))
      (bit_and n 0xff00_0000 / 2 ^ 24)

unfoldable pub ntohl : ℕ → ℕ
ntohl n = htonl n

-- `struct ip_addr`: a 32-bit address in network byte order.
abbrev pub IpAddr : Type 0
IpAddr = ℕ

-- `IP4_ADDR(ipaddr, a,b,c,d)`, as the address that it stores.
unfoldable pub ip4_addr : ℕ → ℕ → ℕ → ℕ → IpAddr
ip4_addr a b c d = htonl (
    bit_or
      (bit_or (bit_or (u32 (bit_and a 0xff * 2 ^ 24)) (u32 (bit_and b 0xff * 2 ^ 16)))
        (u32 (bit_and c 0xff * 2 ^ 8)))
      (bit_and d 0xff))

abbrev pub ip_addr_cmp : IpAddr → IpAddr → Bool
ip_addr_cmp a b = a == b

unfoldable pub ip_addr_maskcmp : IpAddr → IpAddr → IpAddr → Bool
ip_addr_maskcmp a b mask = bit_and a mask == bit_and b mask

-- The argument is a pointer, `none` for NULL.
unfoldable pub ip_addr_isany : Option IpAddr → Bool
ip_addr_isany none = true
ip_addr_isany (some a) = a == 0

unfoldable pub ip_addr_isbroadcast : IpAddr → IpAddr → Bool
ip_addr_isbroadcast a mask =
    (bit_and a (not32 mask) == bit_and 0xffff_ffff (not32 mask)) || (a == 0xffff_ffff) || (a == 0)

unfoldable pub ip_addr_ismulticast : IpAddr → Bool
ip_addr_ismulticast a = bit_and a (ntohl 0xf000_0000) == ntohl 0xe000_0000

unfoldable pub ip4_addr1 : IpAddr → ℕ
ip4_addr1 a = bit_and (u8 (ntohl a / 2 ^ 24)) 0xff

unfoldable pub ip4_addr2 : IpAddr → ℕ
ip4_addr2 a = bit_and (u8 (ntohl a / 2 ^ 16)) 0xff

unfoldable pub ip4_addr3 : IpAddr → ℕ
ip4_addr3 a = bit_and (u8 (ntohl a / 2 ^ 8)) 0xff

unfoldable pub ip4_addr4 : IpAddr → ℕ
ip4_addr4 a = bit_and (u8 (ntohl a)) 0xff

-- `struct eth_addr`: six bytes.
abbrev pub EthAddr : Type 0
EthAddr = List ℕ

abbrev pub eth_addr_len : ℕ
eth_addr_len = 6

pub record EthHdr : Type 0 where
  pub dest : EthAddr
  pub src : EthAddr
  pub type : ℕ

pub record EtharpHdr : Type 0 where
  pub ethhdr : EthHdr
  pub hwtype : ℕ
  pub proto : ℕ
  pub hwlen_protolen : ℕ
  pub opcode : ℕ
  pub shwaddr : EthAddr
  pub sipaddr : IpAddr
  pub dhwaddr : EthAddr
  pub dipaddr : IpAddr

pub record IpHdr : Type 0 where
  pub v_hl_tos : ℕ
  pub len : ℕ
  pub id : ℕ
  pub offset : ℕ
  pub ttl_proto : ℕ
  pub chksum : ℕ
  pub src : IpAddr
  pub dest : IpAddr

pub record EthipHdr : Type 0 where
  pub eth : EthHdr
  pub ip : IpHdr

-- `sizeof` of the packed structs.
abbrev pub sizeof_eth_hdr : ℕ
sizeof_eth_hdr = 14

abbrev pub sizeof_etharp_hdr : ℕ
sizeof_etharp_hdr = 42

abbrev pub sizeof_ip_addr : ℕ
sizeof_ip_addr = 4

abbrev pub ethtype_arp : ℕ
ethtype_arp = 0x0806

abbrev pub ethtype_ip : ℕ
ethtype_ip = 0x0800

pub record Netif : Type 0 where
  pub ip_addr : IpAddr
  pub netmask : IpAddr
  pub gw : IpAddr
  pub hwaddr_len : ℕ
  pub hwaddr : EthAddr

-- `for(k = 0; k < n; ++k) dst[k] = src[k];` from index `k` on, with `n` rounds to go.
unfoldable pub copy_loop : ℕ → ℕ → EthAddr → EthAddr → EthAddr
copy_loop zero k src dst = dst
copy_loop (suc n) k src dst = copy_loop n (k + 1) src (set dst k (get_or src k 0))

abbrev pub copy_addr : ℕ → EthAddr → EthAddr → EthAddr
copy_addr n src dst = copy_loop n 0 src dst
