-- ===== src/Packet/Header.antt =====
-- The headers that are filled in, field by field.
use ps2eth.Prelude.{◌<◌, ◌≡◌, refl, sym, ap, subst, ◌∙◌, arith, length}
use ps2eth.Net.{
  htons, IpAddr, EthAddr, EthHdr, EtharpHdr, Netif, copy_addr, eth_addr_len, sizeof_ip_addr,
  ethtype_arp, ethtype_ip,
}
use ps2eth.Net.Copy.{copy_addr-all}
use ps2eth.Packet.{
  arph_hwlen_set, arph_protolen_set, fill_header, make_reply, make_request, hwtype_ethernet,
  arp_reply, arp_request, ethbroadcast,
}
use ps2eth.Packet.Loops.{
  zero_addr, lengths_set, reply_loop-copies, request_loop1-copies, request_loop2-copies,
  output_loop-copies,
}

-- An interface with a hardware address of six bytes.
pub record IsEthernet (netif : Netif) : Type 0 where
  pub len : netif.hwaddr_len ≡ eth_addr_len
  pub six : length netif.hwaddr ≡ eth_addr_len

-- Each address field of a packet has six bytes.
pub record IsPacket (h : EtharpHdr) : Type 0 where
  pub dest : length h.ethhdr.dest ≡ eth_addr_len
  pub src : length h.ethhdr.src ≡ eth_addr_len
  pub sender : length h.shwaddr ≡ eth_addr_len
  pub target : length h.dhwaddr ≡ eth_addr_len

-- The request that an interface makes for an address.
abbrev pub asked_packet : Netif → IpAddr → EtharpHdr
asked_packet netif ipaddr = record {
  ethhdr = record { dest = ethbroadcast; src = netif.hwaddr; type = htons ethtype_arp };
  hwtype = htons hwtype_ethernet;
  proto = htons ethtype_ip;
  hwlen_protolen = htons 0x0604;
  opcode = htons arp_request;
  shwaddr = netif.hwaddr;
  sipaddr = netif.ip_addr;
  dhwaddr = zero_addr;
  dipaddr = ipaddr;
}

-- The reply of an interface with the address `netif.hwaddr` to the request `h`.
abbrev pub answer_packet : Netif → EtharpHdr → EtharpHdr
answer_packet netif h = record {
  ethhdr = record { dest = h.shwaddr; src = netif.hwaddr; type = htons ethtype_arp };
  hwtype = htons hwtype_ethernet;
  proto = htons ethtype_ip;
  hwlen_protolen = htons 0x0604;
  opcode = htons arp_reply;
  shwaddr = netif.hwaddr;
  sipaddr = netif.ip_addr;
  dhwaddr = h.shwaddr;
  dipaddr = h.sipaddr;
}

module _ (netif : Netif) (v : IsEthernet netif) where
  copy_all :
      (src dst : EthAddr)
      → length src ≡ eth_addr_len
      → length dst ≡ eth_addr_len
      → copy_addr netif.hwaddr_len src dst ≡ src
  copy_all src dst hs hd =
      subst (λ n. copy_addr n src dst ≡ src) (hd ∙ sym v.len) (copy_addr-all src dst (hs ∙ sym hd))

  hwlen_lt : netif.hwaddr_len < 256
  hwlen_lt = omega (arith, v.len)

  lengths_six :
      (h : EtharpHdr)
      → (arph_protolen_set (arph_hwlen_set h netif.hwaddr_len) sizeof_ip_addr).hwlen_protolen
        ≡ htons 0x0604
  lengths_six h =
      lengths_set h netif.hwaddr_len 4 hwlen_lt (omega arith) ∙ ap htons (omega (arith, v.len))

  -- The reply to a request, field by field.
  pub make_reply-eq :
      (ethaddr : EthAddr) (h : EtharpHdr)
      → length ethaddr ≡ eth_addr_len
      → IsPacket h
      → make_reply netif ethaddr h ≡ record {
        ethhdr = record { dest = h.shwaddr; src = ethaddr; type = htons ethtype_arp };
        hwtype = htons hwtype_ethernet;
        proto = htons ethtype_ip;
        hwlen_protolen = htons 0x0604;
        opcode = htons arp_reply;
        shwaddr = ethaddr;
        sipaddr = netif.ip_addr;
        dhwaddr = h.shwaddr;
        dipaddr = h.sipaddr;
      }
  unfolding make_reply
  make_reply-eq ethaddr h len p =
      let h1 = record h {
        opcode = htons arp_reply;
        dipaddr = h.sipaddr;
        sipaddr = netif.ip_addr;
      } in
      rw (
        reply_loop-copies netif.hwaddr_len 0 ethaddr h1 (omega (arith, p.target, v.len)),
        lengths_six h,
        copy_all h.shwaddr h.dhwaddr p.sender p.target,
        copy_all ethaddr h.shwaddr len p.sender,
        copy_all h.shwaddr h.ethhdr.dest p.sender p.dest,
        copy_all ethaddr h.ethhdr.src len p.src,
      )

  -- The request, whatever the packet held before.
  pub make_request-eq :
      (ipaddr : IpAddr) (h : EtharpHdr)
      → IsPacket h
      → make_request netif ipaddr h ≡ asked_packet netif ipaddr
  unfolding make_request
  make_request-eq ipaddr h p =
      let h1 = record h { opcode = htons arp_request } in
      rw (
        request_loop1-copies netif.hwaddr_len 0 netif.hwaddr h1,
        lengths_six h,
        request_loop2-copies netif.hwaddr_len 0 netif.hwaddr _ (omega (arith, v.len)),
        copy_all zero_addr h.dhwaddr refl p.target,
        copy_all netif.hwaddr h.shwaddr v.six p.sender,
        copy_all ethbroadcast h.ethhdr.dest refl p.dest,
        copy_all netif.hwaddr h.ethhdr.src v.six p.src,
      )

  -- The Ethernet header of an outgoing packet.
  pub fill_header-eq :
      (dest : EthAddr) (h : EthHdr)
      → length dest ≡ eth_addr_len
      → length h.dest ≡ eth_addr_len
      → length h.src ≡ eth_addr_len
      → fill_header netif dest h
        ≡ record { dest = dest; src = netif.hwaddr; type = htons ethtype_ip }
  unfolding fill_header
  fill_header-eq dest h len hd hs = rw (
    output_loop-copies netif.hwaddr_len 0 dest netif.hwaddr h,
    copy_all dest h.dest len hd,
    copy_all netif.hwaddr h.src v.six hs,
  )
