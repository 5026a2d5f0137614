-- ===== src/Etharp/Send.antt =====
-- `etharp_output`: where a packet goes, and that what was learned is used.
use ps2eth.Prelude.{
  ℕ, All, ◌&&◌, ◌≡◌, refl, ap, sym, subst, ◌∙◌, ◌⊎◌, inl, inr, arith, true, false, not, Option,
  some, none, ℤ, [], ◌∷◌, length, ◌≢◌, ◌==◌, ==_ne, Bool-cases, Option-cases, if◌then◌else◌, ◌<◌,
  ◌%◌, bit_and_low,
}
use ps2eth.Net.{
  IpAddr, EthAddr, EthHdr, EtharpHdr, Netif, ip_addr_maskcmp, ip_addr_isany, ip_addr_isbroadcast,
  ip_addr_ismulticast, ip4_addr, eth_addr_len, htons, ethtype_ip,
}
use ps2eth.Net.Addr.{octets-ip4_addr}
use ps2eth.Arp.{ArpTable, is_stable, find_stable}
use ps2eth.Arp.Bounds.{IsFresh}
use ps2eth.Arp.Table.{IsTable}
use ps2eth.Packet.{fill_header, mcastaddr, ethbroadcast}
use ps2eth.Packet.Header.{IsEthernet, fill_header-eq}
use ps2eth.Etharp.{etharp_output, route, send_unicast, send_to, drop_packet}

-- A multicast address maps to 01:00:5e and its low 23 bits.
pub mcastaddr-eq :
    (a b c d : ℕ)
    → a < 256
    → b < 256
    → c < 256
    → d < 256
    → mcastaddr (ip4_addr a b c d) ≡ 0x01 ∷ 0x00 ∷ 0x5e ∷ (b % 128) ∷ c ∷ d ∷ []
unfolding mcastaddr
mcastaddr-eq a b c d ha hb hc hd =
    let o = octets-ip4_addr a b c d ha hb hc hd in rw (o.1, o.2, o.3, bit_and_low 7 b)

length-mcastaddr : (a : IpAddr) → length (mcastaddr a) ≡ eth_addr_len
unfolding mcastaddr
length-mcastaddr a = refl

find_stable-length :
    (a : IpAddr) (t : ArpTable) {mac : EthAddr}
    → All IsFresh t
    → find_stable a t ≡ some mac
    → length mac ≡ eth_addr_len
unfolding find_stable
find_stable-length a [] v h = cc
find_stable-length a (e ∷ es) v h = elim (Bool-cases (is_stable e.state && (a == e.ipaddr))) [
  | inl q ↦ ground (arith, v.0.six)
  | inr q ↦ find_stable-length a es v.1 (ground arith)
]

-- The packet `h` is addressed as IP over Ethernet demands, for the destination `to`.
pub data Delivered (netif : Netif) (to : Option IpAddr) (t : ArpTable) (h : EthHdr) : Type 0 where
  broadcast :
      (to ≡ none)
        ⊎ ((a : IpAddr) × (to ≡ some a) × ((a ≡ 0) ⊎ (ip_addr_isbroadcast a netif.netmask ≡ true)))
      → h.dest ≡ ethbroadcast
      → Delivered netif to t h
  multicast :
      (a : IpAddr)
      → to ≡ some a
      → ip_addr_ismulticast a ≡ true
      → h.dest ≡ mcastaddr a
      → Delivered netif to t h
  direct :
      (a : IpAddr)
      → to ≡ some a
      → ip_addr_maskcmp a netif.ip_addr netif.netmask ≡ true
      → find_stable a t ≡ some h.dest
      → Delivered netif to t h
  gateway :
      (a : IpAddr)
      → to ≡ some a
      → ip_addr_maskcmp a netif.ip_addr netif.netmask ≡ false
      → netif.gw ≢ 0
      → find_stable netif.gw t ≡ some h.dest
      → Delivered netif to t h

module _ (netif : Netif) (fresh : Option EtharpHdr) (link : EtharpHdr → ℤ) (q : EthHdr)
    (t : ArpTable) where
  unicast-hit :
      (a : IpAddr) (mac : EthAddr)
      → find_stable a t ≡ some mac
      → send_unicast netif fresh link a q t ≡ send_to netif mac q t
  unfolding send_unicast
  unicast-hit a mac h = rw (h, send_unicast)

  unicast-miss :
      (a : IpAddr) → find_stable a t ≡ none → (send_unicast netif fresh link a q t).packet ≡ none
  unfolding send_unicast
  unicast-miss a h = rw (h, send_unicast)

  unicast-sent :
      (a : IpAddr) {h : EthHdr}
      → (send_unicast netif fresh link a q t).packet ≡ some h
      → (mac : EthAddr) × (find_stable a t ≡ some mac) × (h ≡ fill_header netif mac q)
  unfolding send_to
  unicast-sent a e = elim (Option-cases (find_stable a t)) [
    | inl n ↦ cc (unicast-miss a n)
    | inr (mac, s) ↦ (mac, s, ground (arith, unicast-hit a mac s))
  ]

  -- A packet for a known host of the local network goes to it at once, and nothing else happens.
  pub etharp_output-known :
      (a : IpAddr) (mac : EthAddr)
      → a ≢ 0
      → ip_addr_isbroadcast a netif.netmask ≡ false
      → ip_addr_ismulticast a ≡ false
      → ip_addr_maskcmp a netif.ip_addr netif.netmask ≡ true
      → find_stable a t ≡ some mac
      → etharp_output netif fresh link 0 (some a) q t
        ≡ record { packet = some (fill_header netif mac q); query = none; table = t }
  unfolding etharp_output route send_to ip_addr_isany
  etharp_output-known a mac nz nb nm local known =
      rw (==_ne a 0 nz, nb, nm, local, unicast-hit a mac known)

-- `h` is the header of a packet for `mac`.
abbrev SentTo : Netif → EthAddr → EthHdr → Type 0
SentTo netif mac h = (h.dest ≡ mac) × (h.src ≡ netif.hwaddr) × (h.type ≡ htons ethtype_ip)

module _ (netif : Netif) (v : IsEthernet netif) (fresh : Option EtharpHdr) (link : EtharpHdr → ℤ)
    (q : EthHdr) (qd : length q.dest ≡ eth_addr_len) (qs : length q.src ≡ eth_addr_len)
    (t : ArpTable) (tv : IsTable t) where
  sent_as :
      (mac : EthAddr) {h : EthHdr}
      → length mac ≡ eth_addr_len
      → h ≡ fill_header netif mac q
      → SentTo netif mac h
  sent_as mac {h} len e =
      subst (SentTo netif mac) (sym (e ∙ fill_header-eq netif v mac q len qd qs)) (refl, refl, refl)

  abbrev Proper : Option IpAddr → EthHdr → Type 0
  Proper to h = Delivered netif to t h × (h.src ≡ netif.hwaddr) × (h.type ≡ htons ethtype_ip)

  broadcast-Proper :
      (to : Option IpAddr) {h : EthHdr}
      → (to ≡ none)
        ⊎ ((a : IpAddr) × (to ≡ some a) × ((a ≡ 0) ⊎ (ip_addr_isbroadcast a netif.netmask ≡ true)))
      → h ≡ fill_header netif ethbroadcast q
      → Proper to h
  broadcast-Proper to why e = let s = sent_as ethbroadcast refl e in (broadcast why s.0, s.1, s.2)

  unicast-Proper :
      (to : Option IpAddr) (a : IpAddr) {h : EthHdr}
      → (find_stable a t ≡ some h.dest → Delivered netif to t h)
      → (send_unicast netif fresh link a q t).packet ≡ some h
      → Proper to h
  unicast-Proper to a {h} deliver e =
      let (mac, known, f) = unicast-sent netif fresh link q t a e in
      let s = sent_as mac (find_stable-length a t tv.fresh known) f in
      (deliver (known ∙ ap some (sym s.0)), s.1, s.2)

  remote-Proper :
      (a : IpAddr) {h : EthHdr}
      → ip_addr_maskcmp a netif.ip_addr netif.netmask ≡ false
      → (if not (netif.gw == 0)
          then send_unicast netif fresh link netif.gw q t
          else drop_packet t).packet
        ≡ some h
      → Proper (some a) h
  unfolding drop_packet
  remote-Proper a far e = elim (Bool-cases (netif.gw == 0)) [
    | inl z ↦ ground arith
    | inr nz ↦ unicast-Proper (some a) netif.gw (gateway a refl far (ground arith)) (ground arith)
  ]

  route-Proper :
      (a : IpAddr) {h : EthHdr} → (route netif fresh link a q t).packet ≡ some h → Proper (some a) h
  unfolding route send_to
  route-Proper a e = elim (Bool-cases (ip_addr_isbroadcast a netif.netmask)) [
    | inl b ↦ broadcast-Proper (some a) (inr (a, refl, inr b)) (ground arith)
    | inr nb ↦ elim (Bool-cases (ip_addr_ismulticast a)) [
      | inl m ↦
          let s = sent_as (mcastaddr a) (length-mcastaddr a) (ground arith) in
          (multicast a refl m s.0, s.1, s.2)
      | inr nm ↦ elim (Bool-cases (ip_addr_maskcmp a netif.ip_addr netif.netmask)) [
        | inl local ↦ unicast-Proper (some a) a (direct a refl local) (ground arith)
        | inr far ↦ remote-Proper a far (ground arith)
      ]
    ]
  ]

  -- A packet that `etharp_output` returns carries the IP type and this interface's address, and is
  -- for everybody if the destination is NULL, 0.0.0.0 or a broadcast address; for the group's
  -- address if it is a multicast address; and else for the hardware address that the table holds
  -- for the destination, if it is local, or for the gateway, if it is not.
  pub etharp_output-Delivered :
      (headroom : ℕ) (to : Option IpAddr) {h : EthHdr}
      → (etharp_output netif fresh link headroom to q t).packet ≡ some h
      → Delivered netif to t h × (h.src ≡ netif.hwaddr) × (h.type ≡ htons ethtype_ip)
  unfolding etharp_output send_to drop_packet ip_addr_isany
  etharp_output-Delivered headroom to e = elim (Bool-cases (headroom == 0)) [
    | inr short ↦ ground arith
    | inl room ↦ by_destination to e room
  ]
    where
      by_destination :
          (d : Option IpAddr) {h : EthHdr}
          → (etharp_output netif fresh link headroom d q t).packet ≡ some h
          → (headroom == 0) ≡ true
          → Proper d h
      by_destination none e room = broadcast-Proper none (inl refl) (ground arith)
      by_destination (some a) e room = elim (Bool-cases (a == 0)) [
        | inl z ↦ broadcast-Proper (some a) (inr (a, refl, inl (ground arith))) (ground arith)
        | inr nz ↦ route-Proper a (ground arith)
      ]
