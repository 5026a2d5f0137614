-- ===== src/Smap/Init/Tests.antt =====
-- smap/smap.c: the theorems on the start-up at a concrete device.
use ps2eth.Prelude.{ℕ, ◌%◌, ◌/◌, ◌≡◌, refl, Bool, [], ◌∷◌, ltb, pos, arith}
use ps2eth.Smap.Init.{
  Device, addr_hi, addr_lo, smap_get_mac_address, wait_reset, no_smap, checksum16, check_eeprom,
  check_device,
}
use ps2eth.Smap.Init.Mac.{smap_get_mac_address-eeprom}

smap_get_mac_address-eeprom_example :
    smap_get_mac_address (addr_hi 0x0400) (addr_lo 0x1f2a 0x5b60)
    ≡ (0x0400 % 256)
      ∷ (0x0400 / 256)
      ∷ (0x1f2a % 256)
      ∷ (0x1f2a / 256)
      ∷ (0x5b60 % 256)
      ∷ (0x5b60 / 256)
      ∷ []
smap_get_mac_address-eeprom_example =
    smap_get_mac_address-eeprom 0x0400 0x1f2a 0x5b60 (omega arith) (omega arith) (omega arith)

abbrev busy_thrice : ℕ → Bool
busy_thrice k = ltb k 3

abbrev pub sample_device : Device
sample_device = record {
  rev3 = 128;
  rev1 = 18;
  tx_busy = busy_thrice;
  rx_busy = busy_thrice;
  emac_busy = busy_thrice;
  eeprom_result = pos 0;
  eeprom = record { w0 = 0x0400; w1 = 0x1f2a; w2 = 0x5b60; w3 = 0x7e8a };
}

pub sample_device-check : check_device 128 sample_device ≡ pos 0
unfolding check_device check_eeprom checksum16 wait_reset no_smap
sample_device-check = refl
