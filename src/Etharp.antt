-- ===== src/Etharp.antt =====
-- common/lwip/etharp.c, the messages: `etharp_ip_input`, `etharp_arp_input`, `etharp_query` and
-- `etharp_output`, over the table of module Arp.
-- The network interface's `linkoutput`, and the pbuf functions of the IP stack, are not in this
-- repository: what they return is an argument. A pbuf is the packet header in its payload.
pub mod Invariant
pub mod Input
pub mod Query
pub mod Repeats
pub mod Send
pub mod Samples
pub mod Tests
use ps2eth.Prelude.{
  ℕ, ◌+◌, Bool, true, false, not, Option, none, some, List, [], ◌∷◌, ℤ, pos, negsuc, ◌==◌, ltb,
  if◌then◌else◌, get_elem?, set,
}
use ps2eth.Net.{
  htons, IpAddr, EthAddr, EthHdr, EtharpHdr, EthipHdr, Netif, ip_addr_cmp, ip_addr_maskcmp,
  ip_addr_isany, ip_addr_isbroadcast, ip_addr_ismulticast, sizeof_etharp_hdr,
}
use ps2eth.Arp.{
  ArpTable, EtharpEntry, arp_table_size, arp_insert_flag, is_pending, is_stable, pending,
  update_arp_entry, find_arp_entry, find_stable,
}
use ps2eth.Packet.{
  arp_request, arp_reply, make_reply, make_request, fill_header, mcastaddr, ethbroadcast,
}

-- `err_t`: ERR_MEM, and the 0 that `return NULL` stands for.
abbrev pub err_mem : ℤ
err_mem = negsuc 0

-- What a function does besides: `linkoutput` of an ARP packet, and `pbuf_free` of it.
pub data Action : Type 0 where
  sent : EtharpHdr → Action
  freed : Action

-- `etharp_ip_input`, on the header of the packet that came in.
unfoldable pub etharp_ip_input : Netif → EthipHdr → ArpTable → ArpTable
etharp_ip_input netif hdr t =
    if not (ip_addr_maskcmp hdr.ip.src netif.ip_addr netif.netmask)
    then t
    else update_arp_entry netif hdr.ip.src hdr.eth.src arp_insert_flag t

on_request : Netif → EthAddr → EtharpHdr → ArpTable → ArpTable × List Action
on_request netif ethaddr hdr t =
    if netif.ip_addr == 0
    then (t, freed ∷ [])
    else (let t' = update_arp_entry netif hdr.sipaddr hdr.shwaddr 0 t in
        if ip_addr_cmp hdr.dipaddr netif.ip_addr
        then (t', sent (make_reply netif ethaddr hdr) ∷ freed ∷ [])
        else (t', freed ∷ []))

on_reply : Netif → EtharpHdr → ArpTable → ArpTable × List Action
on_reply netif hdr t =
    if ip_addr_cmp hdr.dipaddr netif.ip_addr
    then (update_arp_entry netif hdr.sipaddr hdr.shwaddr arp_insert_flag t, freed ∷ [])
    else (let t' = update_arp_entry netif hdr.sipaddr hdr.shwaddr 0 t in
        (update_arp_entry netif hdr.dipaddr hdr.dhwaddr 0 t', freed ∷ []))

-- `etharp_arp_input`; `tot_len` is the length of the packet `p`, and `hdr` its header.
unfoldable pub etharp_arp_input :
    Netif → EthAddr → ℕ → EtharpHdr → ArpTable → ArpTable × List Action
unfolding on_request on_reply
etharp_arp_input netif ethaddr tot_len hdr t =
    if ltb tot_len sizeof_etharp_hdr
    then (t, freed ∷ [])
    else if htons hdr.opcode == arp_request
    then on_request netif ethaddr hdr t
    else if htons hdr.opcode == arp_reply
    then on_reply netif hdr t
    else (t, freed ∷ [])

-- The first loop of `etharp_query`: `none` where it returns, else the index at which it stops.
query_walk : IpAddr → ArpTable → ℕ → Option ℕ
query_walk ipaddr [] i = some i
query_walk ipaddr (e ∷ es) i =
    let rest = query_walk ipaddr es (i + 1) in
    if ip_addr_cmp ipaddr e.ipaddr
    then (if is_pending e.state then some i else if is_stable e.state then none else rest)
    else rest

pub record Answer : Type 0 where
  pub table : ArpTable
  pub actions : List Action
  pub result : ℤ

-- `fresh` is what `pbuf_alloc` returns, and `link` what `linkoutput` returns.
pub send_request :
    Netif → (fresh : Option EtharpHdr) → (link : EtharpHdr → ℤ) → IpAddr → ArpTable → Answer
send_request netif fresh link ipaddr t = elim fresh [
  | none ↦ record { table = t; actions = []; result = err_mem }
  | some h ↦ record {
    table = t;
    actions = sent (make_request netif ipaddr h) ∷ freed ∷ [];
    result = link (make_request netif ipaddr h);
  }
]

-- `i is available, create ARP entry`.
pub pending_entry : IpAddr → EtharpEntry → EtharpEntry
pending_entry ipaddr e = record e { ipaddr = ipaddr; ctime = 0; state = pending }

unfoldable pub etharp_query :
    Netif → (fresh : Option EtharpHdr) → (link : EtharpHdr → ℤ) → IpAddr → ArpTable → Answer
unfolding query_walk send_request pending_entry
etharp_query netif fresh link ipaddr t =
    let nothing : Answer = record { table = t; actions = []; result = pos 0 } in
    elim (query_walk ipaddr t 0) [
      | none ↦ nothing
      | some i ↦
          if i == arp_table_size
          then (let j = find_arp_entry t in
              if j == arp_table_size then nothing else elim (get_elem? t j) [
                | none ↦ nothing
                | some e ↦ send_request netif fresh link ipaddr (set t j (pending_entry ipaddr e))
              ])
          else send_request netif fresh link ipaddr t
    ]

-- What `etharp_output` returns and does: the header of the packet to send, if any, and the answer
-- of the query that it makes, if any.
pub record Output : Type 0 where
  pub packet : Option EthHdr
  pub query : Option Answer
  pub table : ArpTable

send_to : Netif → EthAddr → EthHdr → ArpTable → Output
send_to netif dest q t = record {
  packet = some (fill_header netif dest q);
  query = none;
  table = t;
}

drop_packet : ArpTable → Output
drop_packet t = record { packet = none; query = none; table = t }

-- The unicast branch, for the next hop `ipaddr`.
send_unicast :
    Netif
    → (fresh : Option EtharpHdr) → (link : EtharpHdr → ℤ) → IpAddr
    → EthHdr
    → ArpTable
    → Output
unfolding send_to
send_unicast netif fresh link ipaddr q t = elim (find_stable ipaddr t) [
  | some dest ↦ send_to netif dest q t
  | none ↦
      let a = etharp_query netif fresh link ipaddr t in
      record { packet = none; query = some a; table = a.table }
]

-- The branches on a pointer that is not NULL. NULL is a broadcast, by `ip_addr_isany`.
route :
    Netif
    → (fresh : Option EtharpHdr) → (link : EtharpHdr → ℤ) → IpAddr
    → EthHdr
    → ArpTable
    → Output
unfolding send_unicast drop_packet
route netif fresh link ipaddr q t =
    if ip_addr_isbroadcast ipaddr netif.netmask
    then send_to netif ethbroadcast q t
    else if ip_addr_ismulticast ipaddr
    then send_to netif (mcastaddr ipaddr) q t
    else if not (ip_addr_maskcmp ipaddr netif.ip_addr netif.netmask)
    then (if not (netif.gw == 0) then send_unicast netif fresh link netif.gw q t else drop_packet t)
    else send_unicast netif fresh link ipaddr q t

-- `headroom` is what `pbuf_header` returns for the 14 bytes of the Ethernet header, and `q` the
-- header that these bytes make up before they are written.
unfoldable pub etharp_output :
    Netif
    → (fresh : Option EtharpHdr) → (link : EtharpHdr → ℤ) → (headroom : ℕ) → Option IpAddr
    → EthHdr
    → ArpTable
    → Output
unfolding route
etharp_output netif fresh link headroom ipaddr q t =
    if not (headroom == 0) then drop_packet t else elim ipaddr [
      | none ↦ send_to netif ethbroadcast q t
      | some a ↦
          if ip_addr_isany (some a)
          then send_to netif ethbroadcast q t
          else route netif fresh link a q t
    ]
