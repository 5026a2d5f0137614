-- ===== src/Etharp/Samples.antt =====
-- Two hosts of one network, 192.168.0.10 and 192.168.0.11, their packets and their tables.
use ps2eth.Prelude.{
  ℕ, ◌≡◌, refl, arith, [], ◌∷◌, All, All-replicate, replicate, set, ◌≢◌, ℤ, pos, length,
}
use ps2eth.Net.{Netif, EthAddr, EtharpHdr, eth_addr_len}
use ps2eth.Arp.{EtharpEntry, ArpTable, empty, pending, stable, find_arp_entry, arp_table_size}
use ps2eth.Arp.Bounds.{IsFresh}
use ps2eth.Arp.Table.{IsTable, IsStorage}
use ps2eth.Packet.Header.{IsEthernet, IsPacket}

abbrev pub slot : EtharpEntry
slot = record { ipaddr = 0; ethaddr = 0 ∷ 0 ∷ 0 ∷ 0 ∷ 0 ∷ 0 ∷ []; state = empty; ctime = 0 }

abbrev pub storage : ArpTable
storage = replicate 10 slot

-- 192.168.0.10 and 192.168.0.11 as little-endian words.
abbrev pub host : ℕ → EthAddr → Netif
host ip hw = record {
  ip_addr = ip;
  netmask = 0x00ff_ffff;
  gw = 0x0100_a8c0;
  hwaddr_len = 6;
  hwaddr = hw;
}

abbrev pub host_a : Netif
host_a = host 0x0a00_a8c0 (2 ∷ 0 ∷ 0 ∷ 0 ∷ 0 ∷ 10 ∷ [])

abbrev pub host_b : Netif
host_b = host 0x0b00_a8c0 (2 ∷ 0 ∷ 0 ∷ 0 ∷ 0 ∷ 11 ∷ [])

-- A packet whose memory holds rubbish.
abbrev pub rubbish : EtharpHdr
rubbish = record {
  ethhdr = record { dest = hw; src = hw; type = 77 };
  hwtype = 1;
  proto = 2;
  hwlen_protolen = 0xbeef;
  opcode = 9;
  shwaddr = hw;
  sipaddr = 3;
  dhwaddr = hw;
  dipaddr = 4;
}
  where
    hw : EthAddr
    hw = 9 ∷ 8 ∷ 7 ∷ 6 ∷ 5 ∷ 4 ∷ []

abbrev pub accepts : EtharpHdr → ℤ
accepts h = pos 0

pub host_a-IsEthernet : IsEthernet host_a
host_a-IsEthernet = record { len = refl; six = refl }

pub host_b-IsEthernet : IsEthernet host_b
host_b-IsEthernet = record { len = refl; six = refl }

pub rubbish-IsPacket : IsPacket rubbish
rubbish-IsPacket = record { dest = refl; src = refl; sender = refl; target = refl }

slot-IsFresh : IsFresh slot
slot-IsFresh = record { six = refl; stable_age = λ q. cc; pending_age = λ q. cc }

pub storage-IsStorage : IsStorage storage
storage-IsStorage = record {
  size = refl;
  six = All-replicate (λ e. length e.ethaddr ≡ eth_addr_len) 10 slot refl;
}

-- A table with host b in it, and one that waits for host b.
abbrev pub entry_b : EtharpEntry
entry_b = record { ipaddr = 0x0b00_a8c0; ethaddr = host_b.hwaddr; state = stable; ctime = 0 }

entry_b-IsFresh : IsFresh entry_b
entry_b-IsFresh = record { six = refl; stable_age = λ _. omega arith; pending_age = λ q. cc }

waiting_b-IsFresh : IsFresh (record entry_b { state = pending })
waiting_b-IsFresh = record { six = refl; stable_age = λ q. cc; pending_age = λ _. omega arith }

rest-IsFresh : All IsFresh (replicate 9 slot)
rest-IsFresh = All-replicate IsFresh 9 slot slot-IsFresh

pub storage-IsTable : IsTable storage
storage-IsTable = record {
  size = refl;
  fresh = (slot-IsFresh, rest-IsFresh);
  unique = ground arith;
}

abbrev pub knows_b : ArpTable
knows_b = set storage 0 entry_b

pub knows_b-IsTable : IsTable knows_b
knows_b-IsTable = record {
  size = refl;
  fresh = (entry_b-IsFresh, rest-IsFresh);
  unique = ground arith;
}

abbrev pub waits_b : ArpTable
waits_b = set storage 0 (record entry_b { state = pending })

pub waits_b-IsTable : IsTable waits_b
waits_b-IsTable = record {
  size = refl;
  fresh = (waiting_b-IsFresh, rest-IsFresh);
  unique = ground arith;
}

pub storage_room : find_arp_entry storage ≢ arp_table_size
unfolding find_arp_entry
storage_room = omega arith
