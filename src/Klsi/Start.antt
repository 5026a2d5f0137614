-- ===== src/Klsi/Start.antt =====
-- ps2klsi/driver.c, `_start`: the addresses of the interface. The registration of the USB driver behind
-- it does not change them, and the result is 0 whatever it returns.
pub mod Dotted
mod Tests
use ps2eth.Prelude.{ℕ, Option, none, some, List, [], ◌∷◌, ◌+◌}
use ps2eth.Net.{IpAddr, ip4_addr}
use ps2eth.Klsi.Inet.{inet_addr}
use ps2eth.Klsi.Frame.{and_then}

-- The statics `ipaddr`, `netmask` and `gw`.
pub record Addresses : Type 0 where
  pub ipaddr : IpAddr
  pub netmask : IpAddr
  pub gw : IpAddr

abbrev pub default_addresses : Addresses
default_addresses = record {
  ipaddr = ip4_addr 192 168 0 80;
  netmask = ip4_addr 255 255 255 0;
  gw = ip4_addr 192 168 0 1;
}

-- `argc == 4`, and the defaults. `none`: a string on which `inet_addr` uses up its fuel.
unfoldable pub start : (fuel : List ℕ → ℕ) → List (List ℕ) → Option Addresses
start fuel (name ∷ (a ∷ (b ∷ (c ∷ [])))) = and_then (inet_addr (fuel a) a) (λ ip.
    and_then (inet_addr (fuel b) b) (λ mask.
      and_then (inet_addr (fuel c) c)
        (λ gate. some (record { ipaddr = ip; netmask = mask; gw = gate }))))
start fuel [] = some default_addresses
start fuel (name ∷ []) = some default_addresses
start fuel (name ∷ (a ∷ [])) = some default_addresses
start fuel (name ∷ (a ∷ (b ∷ []))) = some default_addresses
start fuel (name ∷ (a ∷ (b ∷ (c ∷ (d ∷ rest))))) = some default_addresses
