-- ===== src/Klsi/Netif.antt =====
-- ps2klsi/ps2eth.c, the interface: `klsi_init`, `low_level_init`, `ethernetif_input`,
-- `ethernetif_output`, `arp_timer` and `readthread`, as clients of the ARP module and of Klsi/Frame.
-- `ethernetif->ethaddr` points to `hwaddr` of the netif, which has the address in one place.
pub mod Serves
pub mod Sends
mod Tests
use ps2eth.Prelude.{
  ℕ, ◌+◌, ◌*◌, ◌^◌, Option, none, some, List, [], ◌∷◌, ◌++◌, ℤ, pos, negsuc, map, ◌==◌, ltb, Bool,
  false, get_or, set, take, drop, if◌then◌else◌,
}
use ps2eth.Net.{
  htons, IpAddr, EthAddr, EthHdr, EtharpHdr, IpHdr, EthipHdr, Netif, ethtype_arp, ethtype_ip,
}
use ps2eth.Arp.{ArpTable, etharp_init, etharp_tmr}
use ps2eth.Etharp.{Action, Answer, Output, etharp_ip_input, etharp_arp_input, etharp_output}
use ps2eth.Packet.Wire.{eth_hdr_bytes}
use ps2eth.Klsi.Frame.{
  Pbuf, Received, no_pbuf, outside, packet, Transfer, low_level_input, low_level_output, and_then,
}

-- The packed structs, read from the bytes at a pbuf's payload.
unfoldable pub u16_at : ℕ → List ℕ → ℕ
u16_at i b = get_or b i 0 + get_or b (i + 1) 0 * 2 ^ 8

unfoldable pub u32_at : ℕ → List ℕ → ℕ
unfolding u16_at
u32_at i b = u16_at i b + u16_at (i + 2) b * 2 ^ 16

unfoldable pub eth_hdr_at : List ℕ → EthHdr
unfolding u16_at
eth_hdr_at b = record { dest = take 6 b; src = take 6 (drop 6 b); type = u16_at 12 b }

unfoldable pub etharp_hdr_at : List ℕ → EtharpHdr
unfolding u16_at u32_at eth_hdr_at
etharp_hdr_at b = record {
  ethhdr = eth_hdr_at b;
  hwtype = u16_at 14 b;
  proto = u16_at 16 b;
  hwlen_protolen = u16_at 18 b;
  opcode = u16_at 20 b;
  shwaddr = take 6 (drop 22 b);
  sipaddr = u32_at 28 b;
  dhwaddr = take 6 (drop 32 b);
  dipaddr = u32_at 38 b;
}

unfoldable pub ip_hdr_at : List ℕ → IpHdr
unfolding u16_at u32_at
ip_hdr_at b = record {
  v_hl_tos = u16_at 0 b;
  len = u16_at 2 b;
  id = u16_at 4 b;
  offset = u16_at 6 b;
  ttl_proto = u16_at 8 b;
  chksum = u16_at 10 b;
  src = u32_at 12 b;
  dest = u32_at 16 b;
}

unfoldable pub ethip_hdr_at : List ℕ → EthipHdr
unfolding eth_hdr_at ip_hdr_at
ethip_hdr_at b = record { eth = eth_hdr_at b; ip = ip_hdr_at (drop 14 b) }

-- The bytes at the payload of a packet: those of its first pbuf, and what the memory after it holds.
unfoldable pub payload : (stale : List ℕ) → List (List ℕ) → List ℕ
payload stale [] = stale
payload stale (q ∷ qs) = q ++ stale

-- What becomes of a received packet: `netif->input` with what `pbuf_header(p, -14)` leaves of it, what
-- the ARP module does with it, or `pbuf_free`.
pub data Fate : Type 0 where
  input : Pbuf → Fate
  arp : Action → Fate
  free : Fate

-- A transfer from the adapter: what `kue_do_transfer` returns, `inbuffer` after it, and what
-- `pbuf_alloc` gives for it.
pub record Arrival : Type 0 where
  pub bytesread : ℤ
  pub inbuffer : List ℕ
  pub alloc : ℕ → Option (List ℕ)
  pub stale : List ℕ

-- `bytesread > 1`
unfoldable pub has_bytes : ℤ → Bool
has_bytes (pos n) = ltb 1 n
has_bytes (negsuc n) = false

module _ (strip : Pbuf → Pbuf) (netif : Netif) where
  -- The switch on the type. `etharp_arp_input` returns NULL on every branch, so its packet is not sent
  -- here.
  unfoldable pub dispatch : (stale : List ℕ) → Pbuf → ArpTable → ArpTable × List Fate
  dispatch stale p t =
      let b = payload stale p.chain in
      let done = etharp_arp_input netif netif.hwaddr p.tot_len (etharp_hdr_at b) t in
      let type' = htons (eth_hdr_at b).type in
      if type' == ethtype_ip
      then (etharp_ip_input netif (ethip_hdr_at b) t, input (strip p) ∷ [])
      else if type' == ethtype_arp
      then (done.0, map arp done.1)
      else (t, free ∷ [])

  -- `none` where `low_level_input` leaves the buffer.
  unfoldable pub ethernetif_input :
      (alloc : ℕ → Option (List ℕ)) (stale buf : List ℕ) → ArpTable → Option (ArpTable × List Fate)
  ethernetif_input alloc stale buf t = elim (low_level_input alloc buf) [
    | no_pbuf ↦ some (t, [])
    | outside ↦ none
    | packet p ↦ some (dispatch stale p t)
  ]

  -- The body of the loop of `readthread`, where more than one byte came.
  unfoldable pub on_arrival : Arrival → ArpTable → Option (ArpTable × List Fate)
  on_arrival a t =
      let handled = ethernetif_input a.alloc a.stale a.inbuffer t in
      if has_bytes a.bytesread then handled else some (t, [])

  -- The rounds of `readthread` on a sequence of transfers.
  unfoldable pub readthread : List Arrival → ArpTable → Option (ArpTable × List Fate)
  readthread [] t = some (t, [])
  readthread (a ∷ arrivals) t =
      and_then (on_arrival a t)
        (λ r. and_then (readthread arrivals r.0) (λ s. some (s.0, r.1 ++ s.1)))

-- The Ethernet header in front of the bytes of the first pbuf, where `pbuf_header` has made room.
unfoldable pub in_front : EthHdr → List (List ℕ) → List (List ℕ)
in_front h [] = []
in_front h (q ∷ qs) = (eth_hdr_bytes h ++ q) ∷ qs

unfoldable pub with_header : EthHdr → Pbuf → Pbuf
unfolding in_front
with_header h p = record { chain = in_front h p.chain; tot_len = p.tot_len + 14 }

-- What `ethernetif_output` sends, if anything, and the table. `none` inside is an access outside of
-- `outbuffer`.
pub record Sending : Type 0 where
  pub transfer : Option (Option Transfer)
  pub table : ArpTable

unfoldable pub ethernetif_output :
    Netif
    → (fresh : Option EtharpHdr) → (link : EtharpHdr → ℤ) → (headroom : ℕ) → Option IpAddr
    → EthHdr
    → Pbuf
    → (outbuffer : List ℕ) → ArpTable
    → Sending
ethernetif_output netif fresh link headroom ipaddr q p outbuffer t =
    let o = etharp_output netif fresh link headroom ipaddr q t in
    elim o.packet [
      | none ↦ record { transfer = none; table = o.table }
      | some h ↦ record {
        transfer = some (low_level_output (with_header h p) outbuffer);
        table = o.table;
      }
    ]

-- The six assignments of `low_level_init`.
unfoldable pub low_level_init : EthAddr → EthAddr → EthAddr
low_level_init eaddr hwaddr =
    let h1 = set (set hwaddr 0 (get_or eaddr 0 0)) 1 (get_or eaddr 1 0) in
    let h2 = set (set h1 2 (get_or eaddr 2 0)) 3 (get_or eaddr 3 0) in
    set (set h2 4 (get_or eaddr 4 0)) 5 (get_or eaddr 5 0)

-- `klsi_init`, on the fields of the netif that the ARP module reads, and the ARP table.
unfoldable pub klsi_init : EthAddr → Netif → ArpTable → Netif × ArpTable
unfolding low_level_init
klsi_init eaddr netif t =
    (record netif { hwaddr = low_level_init eaddr netif.hwaddr }, etharp_init t)

unfoldable pub arp_timer : ArpTable → ArpTable
arp_timer t = etharp_tmr t
