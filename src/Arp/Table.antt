-- ===== src/Arp/Table.antt =====
-- The invariant of `arp_table`: its size, the bounds of its entries, and unique addresses.
use ps2eth.Prelude.{ℕ, ◌≡◌, ◌∙◌, All, length, length-map}
use ps2eth.Net.{IpAddr, EthAddr, Netif, eth_addr_len}
use ps2eth.Arp.{
  ArpTable, arp_table_size, tick_entry, clear_entry, etharp_init, etharp_tmr, update_arp_entry,
}
use ps2eth.Arp.Bounds.{
  IsFresh, etharp_init-IsFresh, etharp_tmr-IsFresh, Update-IsFresh, Update-length,
}
use ps2eth.Arp.Unique.{Unique, etharp_init-Unique, etharp_tmr-Unique, Update-Unique}
use ps2eth.Arp.Cases.{update_arp_entry-Update}

pub record IsTable (t : ArpTable) : Type 0 where
  pub size : length t ≡ arp_table_size
  pub fresh : All IsFresh t
  pub unique : Unique t

-- The static array before `etharp_init`: ten entries with room for six bytes each.
pub record IsStorage (t : ArpTable) : Type 0 where
  pub size : length t ≡ arp_table_size
  pub six : All (λ e. length e.ethaddr ≡ eth_addr_len) t

pub etharp_init-IsTable : {t : ArpTable} → IsStorage t → IsTable (etharp_init t)
unfolding etharp_init
etharp_init-IsTable {t} s = record {
  size = length-map t clear_entry ∙ s.size;
  fresh = etharp_init-IsFresh t s.six;
  unique = etharp_init-Unique t;
}

pub etharp_tmr-IsTable : {t : ArpTable} → IsTable t → IsTable (etharp_tmr t)
unfolding etharp_tmr
etharp_tmr-IsTable {t} v = record {
  size = length-map t tick_entry ∙ v.size;
  fresh = etharp_tmr-IsFresh t v.fresh;
  unique = etharp_tmr-Unique t v.unique;
}

pub update_arp_entry-IsTable :
    (netif : Netif) (ip : IpAddr) (mac : EthAddr) (flags : ℕ) {t : ArpTable}
    → IsTable t
    → IsTable (update_arp_entry netif ip mac flags t)
update_arp_entry-IsTable netif ip mac flags {t} v =
    let u = update_arp_entry-Update netif ip mac t flags v.size in
    record {
      size = Update-length u ∙ v.size;
      fresh = Update-IsFresh u v.fresh;
      unique = Update-Unique u v.unique;
    }
