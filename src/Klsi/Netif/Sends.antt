-- ===== src/Klsi/Netif/Sends.antt =====
-- ps2klsi/ps2eth.c: the frame that `ethernetif_output` sends to a known host.
use ps2eth.Prelude.{
  ℕ, ◌+◌, ◌/◌, ◌^◌, ◌≤◌, ◌≡◌, ◌≢◌, refl, ap, ◌∙◌, true, false, Option, some, List, [], ◌∷◌, ◌++◌,
  leb, length, drop, length-append, append_assoc, joined, arith, ℤ,
}
use ps2eth.Net.{
  u8, IpAddr, EthAddr, EthHdr, EtharpHdr, Netif, eth_addr_len, ip_addr_maskcmp, ip_addr_isbroadcast,
  ip_addr_ismulticast,
}
use ps2eth.Arp.{ArpTable, find_stable}
use ps2eth.Packet.{fill_header}
use ps2eth.Packet.Header.{IsEthernet}
use ps2eth.Packet.Wire.{eth_hdr_bytes, fill_header-bytes}
use ps2eth.Etharp.{Output}
use ps2eth.Etharp.Send.{etharp_output-known}
use ps2eth.Klsi.Frame.{Pbuf, buffer_size, low_level_output}
use ps2eth.Klsi.Frame.Wire.{wire, low_level_output-wire}
use ps2eth.Klsi.Netif.{with_header, in_front, ethernetif_output}

-- The bytes of an IP packet for the host `mac` on the USB pipe: the length of the frame, the two
-- Ethernet addresses, the type 0x0800, and the packet.
pub ip_frame : EthAddr → EthAddr → ℕ → List ℕ → List ℕ
ip_frame mac src tot_len bytes =
    u8 (tot_len + 14)
    ∷ u8 ((tot_len + 14) / 2 ^ 8)
    ∷ ((mac ++ (src ++ (0x08 ∷ 0x00 ∷ []))) ++ bytes)

-- A packet that a header of 14 bytes was put in front of.
low_level_output-header :
    (h : EthHdr) (mac src : EthAddr) (first : List ℕ) (more : List (List ℕ)) (outbuffer : List ℕ)
    → eth_hdr_bytes h ≡ mac ++ (src ++ (0x08 ∷ 0x00 ∷ []))
    → length (eth_hdr_bytes h) ≡ 14
    → length outbuffer ≡ buffer_size
    → length (first ++ joined more) ≤ 1484
    → low_level_output
        (with_header h (record { chain = first ∷ more; tot_len = length (first ++ joined more) }))
        outbuffer
      ≡ (let n = length (first ++ joined more) in
          let frame = ip_frame mac src n (first ++ joined more) in
          some (record { outbuffer = frame ++ drop (n + 14 + 2) outbuffer; sent = frame }))
unfolding ip_frame wire with_header in_front
low_level_output-header h mac src first more outbuffer bytes six size small =
    let n = length (first ++ joined more) in
    let p : Pbuf = record { chain = first ∷ more; tot_len = n } in
    let fits : leb (n + 14) 1498 ≡ true = ground (arith, small) in
    let whole = append_assoc (eth_hdr_bytes h) first (joined more) in
    let long = length-append (eth_hdr_bytes h) (first ++ joined more) in
    let same : n + 14 ≡ length ((eth_hdr_bytes h ++ first) ++ joined more) =
      rw whole (omega (arith, long, six)) in
    low_level_output-wire (with_header h p) outbuffer size same ∙ rw (fits, whole, bytes) refl

module _ (netif : Netif) (v : IsEthernet netif) (fresh : Option EtharpHdr) (link : EtharpHdr → ℤ)
    (q : EthHdr) (qd : length q.dest ≡ eth_addr_len) (qs : length q.src ≡ eth_addr_len)
    (t : ArpTable) where
  -- A packet for a host of the local network with a stable entry goes out on the USB pipe at once, as
  -- a frame from this interface to the address of the entry, if its pbufs hold at most 1484 bytes in
  -- all; the ARP table stays as it is.
  pub ethernetif_output-known :
      (a : IpAddr) (mac : EthAddr) (first : List ℕ) (more : List (List ℕ)) (outbuffer : List ℕ)
      → a ≢ 0
      → ip_addr_isbroadcast a netif.netmask ≡ false
      → ip_addr_ismulticast a ≡ false
      → ip_addr_maskcmp a netif.ip_addr netif.netmask ≡ true
      → find_stable a t ≡ some mac
      → length mac ≡ eth_addr_len
      → length outbuffer ≡ buffer_size
      → length (first ++ joined more) ≤ 1484
      → ethernetif_output netif fresh link 0
          (some a)
          q
          (record { chain = first ∷ more; tot_len = length (first ++ joined more) })
          outbuffer
          t
        ≡ (let n = length (first ++ joined more) in
            let frame = ip_frame mac netif.hwaddr n (first ++ joined more) in
            record {
              transfer = some (
                  some (record { outbuffer = frame ++ drop (n + 14 + 2) outbuffer; sent = frame }));
              table = t;
            })
  unfolding ethernetif_output
  ethernetif_output-known a mac first more outbuffer nz nb nm local known six size small =
      let h = fill_header netif mac q in
      let bytes : eth_hdr_bytes h ≡ mac ++ (netif.hwaddr ++ (0x08 ∷ 0x00 ∷ [])) =
        fill_header-bytes netif v mac q six qd qs in
      let out = etharp_output-known netif fresh link q t a mac nz nb nm local known in
      let long : length (eth_hdr_bytes h) ≡ 14 = rw bytes (
        omega (
          arith,
          length-append mac (netif.hwaddr ++ (0x08 ∷ 0x00 ∷ [])),
          length-append netif.hwaddr (0x08 ∷ 0x00 ∷ []),
          six,
          v.six,
        )) in
      rw
        (
          ethernetif_output,
          out,
          ap (λ (o : Output). o.table) out,
          low_level_output-header h mac netif.hwaddr first more outbuffer bytes long size small,
        )
        refl
