-- ===== src/Etharp/Invariant.antt =====
-- The ARP table under any sequence of the module's calls.
use ps2eth.Prelude.{
  ℕ, ◌≡◌, refl, ◌∙◌, arith, Option, some, none, ℤ, All, All-set, All-get, length-set, get_elem?,
  set,
}
use ps2eth.Net.{IpAddr, EthAddr, EthHdr, EtharpHdr, EthipHdr, Netif}
use ps2eth.Arp.{ArpTable, EtharpEntry, etharp_init, etharp_tmr}
use ps2eth.Arp.Bounds.{IsFresh}
use ps2eth.Arp.Unique.{Unique-set_new}
use ps2eth.Arp.Walk.{Lacks}
use ps2eth.Arp.Table.{
  IsTable, IsStorage, etharp_init-IsTable, etharp_tmr-IsTable, update_arp_entry-IsTable,
}
use ps2eth.Etharp.{
  Answer, etharp_ip_input, etharp_arp_input, etharp_query, etharp_output, send_request,
  pending_entry, on_request, on_reply, route, send_unicast, send_to, drop_packet,
}
use ps2eth.Etharp.Query.{Queried, resolved, asked_again, asked, no_slot, etharp_query-Queried}

etharp_ip_input-IsTable :
    (netif : Netif) (hdr : EthipHdr) {t : ArpTable}
    → IsTable t
    → IsTable (etharp_ip_input netif hdr t)
unfolding etharp_ip_input
etharp_ip_input-IsTable netif hdr v =
    ground (arith, v, update_arp_entry-IsTable netif hdr.ip.src hdr.eth.src 1 v)

on_request-IsTable :
    (netif : Netif) (ethaddr : EthAddr) (hdr : EtharpHdr) {t : ArpTable}
    → IsTable t
    → IsTable (on_request netif ethaddr hdr t).0
unfolding on_request
on_request-IsTable netif ethaddr hdr v =
    ground (arith, v, update_arp_entry-IsTable netif hdr.sipaddr hdr.shwaddr 0 v)

on_reply-IsTable :
    (netif : Netif) (hdr : EtharpHdr) {t : ArpTable} → IsTable t → IsTable (on_reply netif hdr t).0
unfolding on_reply
on_reply-IsTable netif hdr v = ground (
  arith,
  update_arp_entry-IsTable netif hdr.sipaddr hdr.shwaddr 1 v,
  update_arp_entry-IsTable netif hdr.dipaddr hdr.dhwaddr 0
      (update_arp_entry-IsTable netif hdr.sipaddr hdr.shwaddr 0 v),
)

etharp_arp_input-IsTable :
    (netif : Netif) (ethaddr : EthAddr) (tot_len : ℕ) (hdr : EtharpHdr) {t : ArpTable}
    → IsTable t
    → IsTable (etharp_arp_input netif ethaddr tot_len hdr t).0
unfolding etharp_arp_input
etharp_arp_input-IsTable netif ethaddr tot_len hdr v =
    ground (arith, v, on_request-IsTable netif ethaddr hdr v, on_reply-IsTable netif hdr v)

table-send_request :
    (netif : Netif) (fresh : Option EtharpHdr) (link : EtharpHdr → ℤ) (ip : IpAddr) (t : ArpTable)
    → (send_request netif fresh link ip t).table ≡ t
unfolding send_request
table-send_request netif none link ip t = refl
table-send_request netif (some h) link ip t = refl

pending_entry-IsTable :
    (ip : IpAddr) (k : ℕ) {e : EtharpEntry} {t : ArpTable}
    → get_elem? t k ≡ some e
    → All (Lacks ip) t
    → IsTable t
    → IsTable (set t k (pending_entry ip e))
unfolding pending_entry
pending_entry-IsTable ip k {e} {t} at ls v = record {
  size = length-set t k _ ∙ v.size;
  fresh = All-set IsFresh t k _ v.fresh (record {
    six = (All-get IsFresh t k v.fresh at).six;
    stable_age = λ q. cc;
    pending_age = λ _. omega arith;
  });
  unique = Unique-set_new t k _ ls v.unique;
}

Queried-IsTable :
    {netif : Netif} {fresh : Option EtharpHdr} {link : EtharpHdr → ℤ} {ip : IpAddr} {t : ArpTable}
    {a : Answer}
    → IsTable t
    → Queried netif fresh link ip t a
    → IsTable a.table
Queried-IsTable v (resolved k at same s) = v
Queried-IsTable {netif} {fresh} {link} {ip} {t} v (asked_again k at same p) =
    rw (table-send_request netif fresh link ip t) v
Queried-IsTable {netif} {fresh} {link} {ip} {t} v (asked k at c ne ls) =
    rw (table-send_request netif fresh link ip _) (pending_entry-IsTable ip k at ls v)
Queried-IsTable v (no_slot ls p) = v

etharp_query-IsTable :
    (netif : Netif) (fresh : Option EtharpHdr) (link : EtharpHdr → ℤ) (ip : IpAddr) {t : ArpTable}
    → IsTable t
    → IsTable (etharp_query netif fresh link ip t).table
etharp_query-IsTable netif fresh link ip {t} v =
    Queried-IsTable v (etharp_query-Queried netif fresh link ip t v.size)

module _ (netif : Netif) (fresh : Option EtharpHdr) (link : EtharpHdr → ℤ) (q : EthHdr)
    {t : ArpTable} (v : IsTable t) where
  send_unicast-IsTable : (ip : IpAddr) → IsTable (send_unicast netif fresh link ip q t).table
  unfolding send_unicast send_to
  send_unicast-IsTable ip = ground (arith, v, etharp_query-IsTable netif fresh link ip v)

  route-IsTable : (ip : IpAddr) → IsTable (route netif fresh link ip q t).table
  unfolding route send_to drop_packet
  route-IsTable ip = ground (arith, v, send_unicast-IsTable ip, send_unicast-IsTable netif.gw)

  etharp_output-IsTable :
      (headroom : ℕ) (ip : Option IpAddr)
      → IsTable (etharp_output netif fresh link headroom ip q t).table
  unfolding etharp_output send_to drop_packet
  etharp_output-IsTable headroom none = ground (arith, v)
  etharp_output-IsTable headroom (some a) = ground (arith, v, route-IsTable a)

-- One call of the module, by a driver or the timer.
pub data Step : ArpTable → ArpTable → Type 0 where
  tmr : {t : ArpTable} → Step t (etharp_tmr t)
  ip_input : (netif : Netif) (hdr : EthipHdr) {t : ArpTable} → Step t (etharp_ip_input netif hdr t)
  arp_input :
      (netif : Netif) (ethaddr : EthAddr) (tot_len : ℕ) (hdr : EtharpHdr) {t : ArpTable}
      → Step t (etharp_arp_input netif ethaddr tot_len hdr t).0
  query :
      (netif : Netif) (fresh : Option EtharpHdr) (link : EtharpHdr → ℤ) (ip : IpAddr) {t : ArpTable}
      → Step t (etharp_query netif fresh link ip t).table
  output :
      (netif : Netif) (fresh : Option EtharpHdr) (link : EtharpHdr → ℤ) (headroom : ℕ)
      (ip : Option IpAddr) (q : EthHdr) {t : ArpTable}
      → Step t (etharp_output netif fresh link headroom ip q t).table

pub data Reach (t : ArpTable) : ArpTable → Type 0 where
  start : Reach t (etharp_init t)
  next : {u w : ArpTable} → Reach t u → Step u w → Reach t w

pub Step-IsTable : {t u : ArpTable} → Step t u → IsTable t → IsTable u
Step-IsTable tmr v = etharp_tmr-IsTable v
Step-IsTable (ip_input netif hdr) v = etharp_ip_input-IsTable netif hdr v
Step-IsTable (arp_input netif ethaddr n hdr) v = etharp_arp_input-IsTable netif ethaddr n hdr v
Step-IsTable (query netif fresh link ip) v = etharp_query-IsTable netif fresh link ip v
Step-IsTable (output netif fresh link room ip q) v =
    etharp_output-IsTable netif fresh link q v room ip

-- From `etharp_init` on, whatever the packets, the requests of the IP stack and the timer: the table
-- has its ten entries with six-byte addresses, no stable entry is aged 120 or more and no pending one 2
-- or more, and no two entries in use have the same address.
pub Reach-IsTable : {t u : ArpTable} → IsStorage t → Reach t u → IsTable u
Reach-IsTable s start = etharp_init-IsTable s
Reach-IsTable s (next r st) = Step-IsTable st (Reach-IsTable s r)
