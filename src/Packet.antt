-- ===== src/Packet.antt =====
-- common/lwip/etharp.c, the packets that the ARP module writes: the reply that `etharp_arp_input` makes
-- of a request, the request of `etharp_query`, and the Ethernet header of `etharp_output`.
pub mod Loops
pub mod Header
pub mod Wire
use ps2eth.Prelude.{ℕ, zero, suc, ◌+◌, ◌*◌, ◌/◌, ◌^◌, bit_and, bit_or, [], ◌∷◌, get_or, set}
use ps2eth.Net.{
  u16, htons, ntohs, IpAddr, EthAddr, EthHdr, EtharpHdr, Netif, ip4_addr2, ip4_addr3, ip4_addr4,
  sizeof_ip_addr, ethtype_arp, ethtype_ip,
}

abbrev pub arp_request : ℕ
arp_request = 1

abbrev pub arp_reply : ℕ
arp_reply = 2

abbrev pub hwtype_ethernet : ℕ
hwtype_ethernet = 1

-- The macros ARPH_HWLEN to ARPH_PROTOLEN_SET.
unfoldable pub arph_hwlen : EtharpHdr → ℕ
arph_hwlen h = ntohs h.hwlen_protolen / 2 ^ 8

unfoldable pub arph_protolen : EtharpHdr → ℕ
arph_protolen h = bit_and (ntohs h.hwlen_protolen) 0xff

pub arph_hwlen_set : EtharpHdr → ℕ → EtharpHdr
unfolding arph_protolen
arph_hwlen_set h len = record h {
  hwlen_protolen = htons (u16 (bit_or (arph_protolen h) (len * 2 ^ 8)));
}

pub arph_protolen_set : EtharpHdr → ℕ → EtharpHdr
unfolding arph_hwlen
arph_protolen_set h len = record h {
  hwlen_protolen = htons (u16 (bit_or len (arph_hwlen h * 2 ^ 8)));
}

-- The fields that requests and replies set alike, in the order of the source. The source writes
-- `ethhdr` between them, which touches none of these fields.
set_types : Netif → EtharpHdr → EtharpHdr
unfolding arph_hwlen_set arph_protolen_set
set_types netif h =
    let h1 = arph_hwlen_set (record h { hwtype = htons hwtype_ethernet }) netif.hwaddr_len in
    arph_protolen_set (record h1 { proto = htons ethtype_ip }) sizeof_ip_addr

set_ethtype : EtharpHdr → EtharpHdr
set_ethtype h = record h { ethhdr = record (h.ethhdr) { type = htons ethtype_arp } }

-- One round of the reply's loop over the bytes of the addresses: its four assignments in order.
reply_round : EthAddr → ℕ → EtharpHdr → EtharpHdr
reply_round ethaddr i h =
    let h1 = record h { dhwaddr = set h.dhwaddr i (get_or h.shwaddr i 0) } in
    let h2 = record h1 { shwaddr = set h1.shwaddr i (get_or ethaddr i 0) } in
    let dest' = set h2.ethhdr.dest i (get_or h2.dhwaddr i 0) in
    let h3 = record h2 { ethhdr = record (h2.ethhdr) { dest = dest' } } in
    record h3 { ethhdr = record (h3.ethhdr) { src = set h3.ethhdr.src i (get_or ethaddr i 0) } }

pub reply_loop : ℕ → ℕ → EthAddr → EtharpHdr → EtharpHdr
unfolding reply_round
reply_loop zero i ethaddr h = h
reply_loop (suc n) i ethaddr h = reply_loop n (i + 1) ethaddr (reply_round ethaddr i h)

-- The request in the packet becomes the reply.
unfoldable pub make_reply : Netif → EthAddr → EtharpHdr → EtharpHdr
unfolding reply_loop set_types set_ethtype
make_reply netif ethaddr h =
    let h1 = record h { opcode = htons arp_reply; dipaddr = h.sipaddr; sipaddr = netif.ip_addr } in
    set_ethtype (set_types netif (reply_loop netif.hwaddr_len 0 ethaddr h1))

request_round1 : EthAddr → ℕ → EtharpHdr → EtharpHdr
request_round1 srcaddr j h = record h {
  dhwaddr = set h.dhwaddr j 0;
  shwaddr = set h.shwaddr j (get_or srcaddr j 0);
}

pub request_loop1 : ℕ → ℕ → EthAddr → EtharpHdr → EtharpHdr
unfolding request_round1
request_loop1 zero j srcaddr h = h
request_loop1 (suc n) j srcaddr h = request_loop1 n (j + 1) srcaddr (request_round1 srcaddr j h)

request_round2 : EthAddr → ℕ → EtharpHdr → EtharpHdr
request_round2 srcaddr j h = record h {
  ethhdr = record (h.ethhdr) {
    dest = set h.ethhdr.dest j 0xff;
    src = set h.ethhdr.src j (get_or srcaddr j 0);
  };
}

pub request_loop2 : ℕ → ℕ → EthAddr → EtharpHdr → EtharpHdr
unfolding request_round2
request_loop2 zero j srcaddr h = h
request_loop2 (suc n) j srcaddr h = request_loop2 n (j + 1) srcaddr (request_round2 srcaddr j h)

-- The packet that `pbuf_alloc` gave, whatever it held, filled in as a request.
unfoldable pub make_request : Netif → IpAddr → EtharpHdr → EtharpHdr
unfolding request_loop1 request_loop2 set_types set_ethtype
make_request netif ipaddr h =
    let h1 =
      request_loop1 netif.hwaddr_len 0 netif.hwaddr (record h { opcode = htons arp_request }) in
    let h2 = record h1 { dipaddr = ipaddr; sipaddr = netif.ip_addr } in
    set_ethtype (request_loop2 netif.hwaddr_len 0 netif.hwaddr (set_types netif h2))

output_round : EthAddr → EthAddr → ℕ → EthHdr → EthHdr
output_round dest srcaddr i h =
    let h1 = record h { dest = set h.dest i (get_or dest i 0) } in
    record h1 { src = set h1.src i (get_or srcaddr i 0) }

pub output_loop : ℕ → ℕ → EthAddr → EthAddr → EthHdr → EthHdr
unfolding output_round
output_loop zero i dest srcaddr h = h
output_loop (suc n) i dest srcaddr h =
    output_loop n (i + 1) dest srcaddr (output_round dest srcaddr i h)

-- The Ethernet header of an outgoing IP packet.
unfoldable pub fill_header : Netif → EthAddr → EthHdr → EthHdr
unfolding output_loop
fill_header netif dest h = record (output_loop netif.hwaddr_len 0 dest netif.hwaddr h) {
  type = htons ethtype_ip;
}

abbrev pub ethbroadcast : EthAddr
ethbroadcast = 0xff ∷ 0xff ∷ 0xff ∷ 0xff ∷ 0xff ∷ 0xff ∷ []

unfoldable pub mcastaddr : IpAddr → EthAddr
mcastaddr ipaddr =
    0x01 ∷ 0x0 ∷ 0x5e ∷ bit_and (ip4_addr2 ipaddr) 0x7f ∷ ip4_addr3 ipaddr ∷ ip4_addr4 ipaddr ∷ []
