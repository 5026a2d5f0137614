-- ===== src/Smap/Entry/Starts.antt =====
-- smap/main.c: what `_start` leaves behind when the module stays resident.
use ps2eth.Prelude.{ℕ, ◌≡◌, some, List, []}
use ps2eth.Net.{IpAddr}
use ps2eth.Packet.Header.{IsEthernet}
use ps2eth.Smap.Queue.Chain.{Represents}
use ps2eth.Smap.Init.{smap_get_mac_address}
use ps2eth.Smap.Init.Resets.{Accepted}
use ps2eth.Smap.Entry.{Entry, Up, World, parse_ip_args}

-- The interface is an Ethernet interface, its queue is empty, and the adapter has passed the checks.
pub record Resident (inet_addr : List ℕ → IpAddr) (w : World) (argv : List (List ℕ)) (u : Up)
    : Type 0 where
  pub entry : Entry
  pub parsed : parse_ip_args inet_addr argv ≡ some entry
  pub address : u.netif.ip_addr ≡ entry.ip
  pub netmask : u.netif.netmask ≡ entry.nm
  pub gateway : u.netif.gw ≡ entry.gw
  pub ethernet : IsEthernet u.netif
  pub mac : u.netif.hwaddr ≡ smap_get_mac_address w.mac_hi w.mac_lo
  pub queue : Represents u.queue []
  pub device : Accepted w.device
