-- ===== src/Packet/Wire.antt =====
-- The bytes on the wire: the packed structs of netif/etharp.h as they lie in little-endian memory,
-- and the ARP packets of RFC 826 and RFC 894 that they must be.
use ps2eth.Prelude.{ℕ, ◌/◌, ◌%◌, ◌≡◌, ap, List, [], ◌∷◌, ◌++◌, length}
use ps2eth.Net.{htons, IpAddr, EthAddr, EthHdr, EtharpHdr, Netif, eth_addr_len}
use ps2eth.Packet.{make_reply, make_request, fill_header, ethbroadcast}
use ps2eth.Packet.Loops.{zero_addr}
use ps2eth.Packet.Header.{IsEthernet, IsPacket, make_reply-eq, make_request-eq, fill_header-eq}

abbrev pub le16 : ℕ → List ℕ
le16 n = n % 256 ∷ n / 256 % 256 ∷ []

abbrev pub le32 : ℕ → List ℕ
le32 n = n % 256 ∷ n / 256 % 256 ∷ n / 65_536 % 256 ∷ n / 16_777_216 % 256 ∷ []

abbrev pub eth_hdr_bytes : EthHdr → List ℕ
eth_hdr_bytes h = h.dest ++ (h.src ++ le16 h.type)

abbrev pub etharp_hdr_bytes : EtharpHdr → List ℕ
etharp_hdr_bytes h =
    eth_hdr_bytes h.ethhdr
    ++ (le16 h.hwtype
        ++ (le16 h.proto
            ++ (le16 h.hwlen_protolen
                ++ (le16 h.opcode
                    ++ (h.shwaddr ++ (le32 h.sipaddr ++ (h.dhwaddr ++ le32 h.dipaddr)))))))

-- An ARP packet for Ethernet and IPv4: type 0x0806, hardware 1, protocol 0x0800, lengths 6 and 4.
-- An `IpAddr` is in network order, so its bytes in memory are its bytes on the wire.
abbrev pub arp_bytes :
    (dest src : EthAddr) (op : ℕ) (sender : EthAddr) (sender_ip : IpAddr) (target : EthAddr)
    (target_ip : IpAddr)
    → List ℕ
arp_bytes dest src op sender sender_ip target target_ip =
    (dest ++ (src ++ (0x08 ∷ 0x06 ∷ [])))
    ++ ((0x00 ∷ 0x01 ∷ 0x08 ∷ 0x00 ∷ 0x06 ∷ 0x04 ∷ 0x00 ∷ op ∷ [])
        ++ (sender ++ (le32 sender_ip ++ (target ++ le32 target_ip))))

module _ (netif : Netif) (v : IsEthernet netif) where
  -- The reply goes to the asker, from this interface: sender and target are the request's, swapped,
  -- with the address of the interface filled in.
  pub make_reply-bytes :
      (ethaddr : EthAddr) (h : EtharpHdr)
      → length ethaddr ≡ eth_addr_len
      → IsPacket h
      → etharp_hdr_bytes (make_reply netif ethaddr h)
        ≡ arp_bytes h.shwaddr ethaddr 2 ethaddr netif.ip_addr h.shwaddr h.sipaddr
  unfolding htons
  make_reply-bytes ethaddr h len p = ap etharp_hdr_bytes (make_reply-eq netif v ethaddr h len p)

  -- The request is a broadcast that names this interface as the sender and asks for `ipaddr`.
  pub make_request-bytes :
      (ipaddr : IpAddr) (h : EtharpHdr)
      → IsPacket h
      → etharp_hdr_bytes (make_request netif ipaddr h)
        ≡ arp_bytes ethbroadcast netif.hwaddr 1 netif.hwaddr netif.ip_addr zero_addr ipaddr
  unfolding htons
  make_request-bytes ipaddr h p = ap etharp_hdr_bytes (make_request-eq netif v ipaddr h p)

  pub fill_header-bytes :
      (dest : EthAddr) (h : EthHdr)
      → length dest ≡ eth_addr_len
      → length h.dest ≡ eth_addr_len
      → length h.src ≡ eth_addr_len
      → eth_hdr_bytes (fill_header netif dest h) ≡ dest ++ (netif.hwaddr ++ (0x08 ∷ 0x00 ∷ []))
  unfolding htons
  fill_header-bytes dest h len hd hs = ap eth_hdr_bytes (fill_header-eq netif v dest h len hd hs)
