-- ===== src/Arp/Tests.antt =====
-- Runs of the ARP table, and the table's theorems at concrete tables.
use ps2eth.Prelude.{ℕ, ◌≡◌, refl, arith, some, none, [], ◌∷◌, replicate, set, ◌<◌}
use ps2eth.Net.{Netif, EthAddr, copy_loop}
use ps2eth.Arp.{
  EtharpEntry, ArpTable, empty, pending, stable, find_arp_entry, update_arp_entry, find_stable,
  arp_table_size,
}
use ps2eth.Arp.Find.{Choice, find_arp_entry-Choice}
use ps2eth.Arp.Bounds.{IsFresh}
use ps2eth.Arp.Table.{IsTable}
use ps2eth.Arp.Others.{KeptOrEvicted, OneKept, update_arp_entry-KeptOrEvicted}

abbrev free_slot : EtharpEntry
free_slot = record { ipaddr = 0; ethaddr = 0 ∷ 0 ∷ 0 ∷ 0 ∷ 0 ∷ 0 ∷ []; state = empty; ctime = 7 }

abbrev known : ℕ → ℕ → EtharpEntry
known ip age = record {
  ipaddr = ip;
  ethaddr = 2 ∷ 0 ∷ 0 ∷ 0 ∷ 0 ∷ ip ∷ [];
  state = stable;
  ctime = age;
}

-- Ten stable entries, of which 17 is the oldest.
abbrev crowd : ArpTable
crowd =
    known 11 3
    ∷ known 12 5
    ∷ known 13 5
    ∷ known 14 1
    ∷ known 15 0
    ∷ known 16 2
    ∷ known 17 90
    ∷ known 18 4
    ∷ known 19 4
    ∷ known 20 3
    ∷ []

abbrev netif : Netif
netif = record {
  ip_addr = 1;
  netmask = 0xffff_ff00;
  gw = 9;
  hwaddr_len = 6;
  hwaddr = 2 ∷ 2 ∷ 2 ∷ 2 ∷ 2 ∷ 2 ∷ [];
}

abbrev mac : EthAddr
mac = 1 ∷ 2 ∷ 3 ∷ 4 ∷ 5 ∷ 6 ∷ []

known-IsFresh : (ip : ℕ) {age : ℕ} → age < 120 → IsFresh (known ip age)
known-IsFresh ip h = record { six = refl; stable_age = λ _. h; pending_age = λ q. cc }

crowd-IsTable : IsTable crowd
crowd-IsTable = record {
  size = refl;
  fresh = (
    known-IsFresh 11 (omega arith),
    (
      known-IsFresh 12 (omega arith),
      (
        known-IsFresh 13 (omega arith),
        (
          known-IsFresh 14 (omega arith),
          (
            known-IsFresh 15 (omega arith),
            (
              known-IsFresh 16 (omega arith),
              (
                known-IsFresh 17 (omega arith),
                (
                  known-IsFresh 18 (omega arith),
                  (known-IsFresh 19 (omega arith), (known-IsFresh 20 (omega arith), tt)),
                ),
              ),
            ),
          ),
        ),
      ),
    ),
  );
  unique = ground arith;
}

takes_empty : find_arp_entry (set crowd 3 free_slot) ≡ 3
unfolding find_arp_entry
takes_empty = refl

gives_up : find_arp_entry (replicate 10 (record free_slot { state = pending })) ≡ arp_table_size
unfolding find_arp_entry
gives_up = refl

-- A stable entry takes the place of 17, and is looked up by its address.
learns :
    (find_stable 40 (update_arp_entry netif 40 mac 0 crowd) ≡ some mac)
    × (find_stable 17 (update_arp_entry netif 40 mac 0 crowd) ≡ none)
unfolding find_stable update_arp_entry find_arp_entry copy_loop
learns = (refl, refl)

find_arp_entry-Choice_example : Choice crowd (find_arp_entry crowd)
find_arp_entry-Choice_example = find_arp_entry-Choice crowd refl

update_arp_entry-KeptOrEvicted_example :
    KeptOrEvicted 17 40 crowd (update_arp_entry netif 40 mac 0 crowd)
    × OneKept 17 18 crowd (update_arp_entry netif 40 mac 0 crowd)
update_arp_entry-KeptOrEvicted_example =
    update_arp_entry-KeptOrEvicted netif 40 mac 0 {t = crowd} 17 18 (omega arith) (omega arith)
      (omega arith) crowd-IsTable
