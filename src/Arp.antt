-- ===== src/Arp.antt =====
-- common/lwip/etharp.c, the ARP table: `arp_table`, `etharp_init`, `etharp_tmr`, `find_arp_entry` and
-- `update_arp_entry`. ARP_QUEUEING is defined nowhere, so no packet is queued on an entry.
-- A table is a list of ARP_TABLE_SIZE entries, and a function that writes it returns the new one.
pub mod Find
pub mod Walk
pub mod Cases
pub mod Bounds
pub mod Unique
pub mod Table
pub mod Lookup
pub mod Others
pub mod Ageing
pub mod Tests
use ps2eth.Prelude.{
  ℕ, ◌+◌, ◌%◌, ◌^◌, bit_and, Bool, true, false, not, ◌&&◌, ◌||◌, Option, none, some, List, [], ◌∷◌,
  map, ◌==◌, leb, if◌then◌else◌, get_elem?, set,
}
use mathlib.Core.Option
use ps2eth.Net.{u8, IpAddr, EthAddr, Netif, ip_addr_cmp, copy_addr}

abbrev pub arp_table_size : ℕ
arp_table_size = 10

abbrev pub arp_maxage : ℕ
arp_maxage = 120

abbrev pub arp_maxpending : ℕ
arp_maxpending = 2

abbrev pub arp_insert_flag : ℕ
arp_insert_flag = 1

abbrev pub etharp_always_insert : ℕ
etharp_always_insert = 1

pub data EtharpState : Type 0 where
  empty pending stable : EtharpState

abbrev pub is_empty : EtharpState → Bool
is_empty empty = true
is_empty pending = false
is_empty stable = false

abbrev pub is_pending : EtharpState → Bool
is_pending empty = false
is_pending pending = true
is_pending stable = false

abbrev pub is_stable : EtharpState → Bool
is_stable empty = false
is_stable pending = false
is_stable stable = true

pub record EtharpEntry : Type 0 where
  pub ipaddr : IpAddr
  pub ethaddr : EthAddr
  pub state : EtharpState
  pub ctime : ℕ

abbrev pub ArpTable : Type 0
ArpTable = List EtharpEntry

clear_entry : EtharpEntry → EtharpEntry
clear_entry e = record e { state = empty }

unfoldable pub etharp_init : ArpTable → ArpTable
unfolding clear_entry
etharp_init t = map clear_entry t

-- The body of the timer's loop. `ctime` is a byte.
unfoldable pub tick_entry : EtharpEntry → EtharpEntry
tick_entry e =
    let aged = record e { ctime = u8 (e.ctime + 1) } in
    if is_stable aged.state && leb arp_maxage aged.ctime
    then record aged { state = empty }
    else if is_pending aged.state && leb arp_maxpending aged.ctime
    then record aged { state = empty }
    else aged

unfoldable pub etharp_tmr : ArpTable → ArpTable
etharp_tmr t = map tick_entry t

-- The first loop of `find_arp_entry`: the index of the first empty entry, or the table's size.
find_empty : ArpTable → ℕ → ℕ
find_empty [] i = i
find_empty (e ∷ es) i = if is_empty e.state then i else find_empty es (i + 1)

-- The second loop, with its variables `i`, `maxtime` and `j`.
find_oldest : ArpTable → ℕ → ℕ → ℕ → ℕ
find_oldest [] i maxtime j = j
find_oldest (e ∷ es) i maxtime j =
    let older = is_stable e.state && leb maxtime e.ctime in
    find_oldest es (i + 1) (if older then e.ctime else maxtime) (if older then i else j)

unfoldable pub find_arp_entry : ArpTable → ℕ
unfolding find_empty find_oldest
find_arp_entry t =
    let i = find_empty t 0 in if i == arp_table_size then find_oldest t 0 0 arp_table_size else i

-- A pending entry goes stable.
unfoldable pub promote : EtharpEntry → EtharpEntry
promote e = if is_pending e.state then record e { state = stable } else e

-- An entry takes the new hardware address, and its time stamp is reset.
unfoldable pub refresh : ℕ → EthAddr → EtharpEntry → EtharpEntry
refresh hwaddr_len ethaddr e = record e {
  ethaddr = copy_addr hwaddr_len ethaddr e.ethaddr;
  ctime = 0;
}

-- The loop of `update_arp_entry`: the new table if it returns from the loop, else `none`.
pub update_walk : ℕ → IpAddr → EthAddr → ArpTable → Option ArpTable
unfolding promote refresh
update_walk hwaddr_len ipaddr ethaddr [] = none
update_walk hwaddr_len ipaddr ethaddr (e ∷ es) =
    let rest = update_walk hwaddr_len ipaddr ethaddr es in
    if ip_addr_cmp ipaddr e.ipaddr
    then (let e' = promote e in
        if is_stable e'.state
        then some (refresh hwaddr_len ethaddr e' ∷ es)
        else Option.map (λ es'. e' ∷ es') rest)
    else Option.map (λ es'. e ∷ es') rest

-- The entry that an insertion leaves in the slot of `e`.
pub new_entry : ℕ → IpAddr → EthAddr → EtharpEntry → EtharpEntry
new_entry hwaddr_len ipaddr ethaddr e = record {
  ipaddr = ipaddr;
  ethaddr = copy_addr hwaddr_len ethaddr e.ethaddr;
  state = stable;
  ctime = 0;
}

-- The end of `update_arp_entry`: the pair goes to the slot that `find_arp_entry` chooses.
pub insert_entry : ℕ → IpAddr → EthAddr → ArpTable → ArpTable
unfolding new_entry
insert_entry hwaddr_len ipaddr ethaddr t =
    let i = find_arp_entry t in
    if i == arp_table_size then t else elim (get_elem? t i) [
      | none ↦ t
      | some e ↦ set t i (new_entry hwaddr_len ipaddr ethaddr e)
    ]

unfoldable pub update_arp_entry : Netif → IpAddr → EthAddr → ℕ → ArpTable → ArpTable
unfolding update_walk insert_entry
update_arp_entry netif ipaddr ethaddr flags t =
    if ipaddr == 0 then t else elim (update_walk netif.hwaddr_len ipaddr ethaddr t) [
      | some t' ↦ t'
      | none ↦
          if not (etharp_always_insert == 0) || not (bit_and flags arp_insert_flag == 0)
          then insert_entry netif.hwaddr_len ipaddr ethaddr t
          else t
    ]

-- The loop of `etharp_output`: the address of the first stable entry for `ipaddr`.
unfoldable pub find_stable : IpAddr → ArpTable → Option EthAddr
find_stable ipaddr [] = none
find_stable ipaddr (e ∷ es) =
    if is_stable e.state && ip_addr_cmp ipaddr e.ipaddr
    then some e.ethaddr
    else find_stable ipaddr es
