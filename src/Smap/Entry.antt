-- ===== src/Smap/Entry.antt =====
-- smap/main.c: `_start` with `SMapInit`, and `SMapIFInit`, which `netif_add` calls. `inet_addr` and the
-- functions on the netif are the IP stack's: the first is an argument, the others have no result here.
pub mod Starts
mod Tests
use ps2eth.Prelude.{
  ℕ, zero, suc, Bool, true, false, not, Option, none, some, List, [], ◌∷◌, ℤ, pos, negsuc, ◌==◌,
  if◌then◌else◌,
}
use ps2eth.Net.{IpAddr, Netif, ip4_addr}
use ps2eth.Smap.Queue.{TxQueue, clear_queue}
use ps2eth.Smap.Thread.{Thread, Phy, Call}
use ps2eth.Smap.Start.{smap_init_start}
use ps2eth.Smap.Init.{Device, smap_get_mac_address}
use ps2eth.Smap.Args.{Settings, smap_init}

-- IP, NM and GW, and the arguments that are left for `smap_init`.
pub record Entry : Type 0 where
  pub ip : IpAddr
  pub nm : IpAddr
  pub gw : IpAddr
  pub options : List (List ℕ)

abbrev pub default_entry : List (List ℕ) → Entry
default_entry options = record {
  ip = ip4_addr 192 168 0 80;
  nm = ip4_addr 255 255 255 0;
  gw = ip4_addr 192 168 0 1;
  options = options;
}

-- The addresses are taken from the arguments if `argc>=4`. `none`: with no `argv[0]`, `numArgs` is -1.
unfoldable pub parse_ip_args : (inet_addr : List ℕ → IpAddr) → List (List ℕ) → Option Entry
parse_ip_args inet_addr [] = none
parse_ip_args inet_addr (name ∷ []) = some (default_entry [])
parse_ip_args inet_addr (name ∷ (a ∷ [])) = some (default_entry (a ∷ []))
parse_ip_args inet_addr (name ∷ (a ∷ (b ∷ []))) = some (default_entry (a ∷ b ∷ []))
parse_ip_args inet_addr (name ∷ (a ∷ (b ∷ (c ∷ rest)))) =
    some (record { ip = inet_addr a; nm = inet_addr b; gw = inet_addr c; options = rest })

-- What `SMapIFInit` leaves. `mac_hi` and `mac_lo` are the EMAC3 registers with the MAC address.
pub record Up : Type 0 where
  pub netif : Netif
  pub queue : TxQueue
  pub thread : Thread
  pub calls : List Call

unfoldable pub smap_if_init : (mac_hi mac_lo : ℕ) → Phy → Netif → TxQueue → Thread → Up
smap_if_init mac_hi mac_lo phy netif q t =
    let begun = smap_init_start phy t in
    record {
      netif = record netif { hwaddr_len = 6; hwaddr = smap_get_mac_address mac_hi mac_lo };
      queue = clear_queue q;
      thread = begun.0;
      calls = begun.1;
    }

-- The netif that `netif_add` hands to `SMapIFInit`.
abbrev pub added : Entry → Netif → Netif
added e netif = record netif { ip_addr = e.ip; netmask = e.nm; gw = e.gw }

-- What the module starts with: the statics, and what the device and the other modules answer.
pub record World : Type 0 where
  pub no_resident_end : ℤ
  pub initialize : ℤ
  pub caps : ℕ
  pub device : Device
  pub mac_hi : ℕ
  pub mac_lo : ℕ
  pub phy : Phy
  pub settings : Settings
  pub netif : Netif
  pub queue : TxQueue
  pub thread : Thread

unfoldable pub is_zero : ℤ → Bool
is_zero (pos n) = n == 0
is_zero (negsuc n) = false

-- `_start`: `none` for MODULE_NO_RESIDENT_END, and what is up for MODULE_RESIDENT_END. A call of
-- `smap_init` with a negative `argc` returns 2.
unfoldable pub start :
    (inet_addr : List ℕ → IpAddr) (strtoul : List ℕ → ℕ) → World → List (List ℕ) → Option Up
start inet_addr strtoul w argv = elim (parse_ip_args inet_addr argv) [
  | none ↦ none
  | some e ↦
      let r =
        smap_init strtoul w.no_resident_end w.initialize w.caps w.device e.options w.settings in
      if is_zero r.0
      then some (smap_if_init w.mac_hi w.mac_lo w.phy (added e w.netif) w.queue w.thread)
      else none
]
