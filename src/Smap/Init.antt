-- ===== src/Smap/Init.antt =====
-- smap/smap.c: the checks of `smap_init` on the adapter, the MAC address that it reads from the EEPROM
-- and writes to the EMAC3 registers, and `SMAPGetMACAddress`, which reads it back.
pub mod Mac
pub mod Resets
pub mod Tests
use ps2eth.Prelude.{
  ℕ, zero, suc, ◌+◌, ◌*◌, ◌/◌, ◌^◌, bit_and, bit_or, Bool, true, false, not, ◌&&◌, List, [], ◌∷◌, ℤ,
  pos, negsuc, ◌==◌, ltb, if◌then◌else◌,
}
use ps2eth.Net.{u8, u16, u32}

-- `(u16)(w>>8 | w<<8)`
unfoldable pub swap16 : ℕ → ℕ
swap16 w = u16 (bit_or (w / 2 ^ 8) (w * 2 ^ 8))

-- What is written to SMAP_R_EMAC3_ADDR_HI and SMAP_R_EMAC3_ADDR_LO.
unfoldable pub addr_hi : ℕ → ℕ
unfolding swap16
addr_hi w0 = swap16 w0

unfoldable pub addr_lo : ℕ → ℕ → ℕ
unfolding swap16
addr_lo w1 w2 = bit_or (swap16 w1 * 2 ^ 16) (swap16 w2)

unfoldable pub smap_get_mac_address : ℕ → ℕ → List ℕ
smap_get_mac_address hi lo =
    u8 (hi / 2 ^ 8) ∷ u8 hi ∷ u8 (lo / 2 ^ 24) ∷ u8 (lo / 2 ^ 16) ∷ u8 (lo / 2 ^ 8) ∷ u8 lo ∷ []

-- The four words of the EEPROM.
pub record Eeprom : Type 0 where
  pub w0 : ℕ
  pub w1 : ℕ
  pub w2 : ℕ
  pub w3 : ℕ

-- `checksum16+=eeprom_data[i]` for the first three words.
unfoldable pub checksum16 : Eeprom → ℕ
checksum16 e = u16 (u16 (u16 (0 + e.w0) + e.w1) + e.w2)

-- The checks of the EEPROM. `result` is what `dev9GetEEPROM` returns.
unfoldable pub check_eeprom : ℤ → Eeprom → ℤ
check_eeprom (negsuc n) e = if n == 0 then negsuc 6 else negsuc 3
check_eeprom (pos n) e =
    if (e.w0 == 0) && ((e.w1 == 0) && (e.w2 == 0))
    then negsuc 4
    else if not (checksum16 e == e.w3)
    then negsuc 4
    else pos 0

-- `for(i=9; busy; i--) if(i<=0) return error;`, whether it ends without an error; `busy k` is what the
-- reset bit reads for the `k`-th time.
unfoldable pub wait_reset : (busy : ℕ → Bool) → ℕ → ℕ → Bool
wait_reset busy zero k = if busy k then false else true
wait_reset busy (suc i) k = let rest = wait_reset busy i (k + 1) in if busy k then rest else true

-- `!SPD_REG16(SPD_R_REV_3)&SPD_CAPS_SMAP`, the condition on which `smap_init` returns -1: `!` binds
-- tighter than `&`.
unfoldable pub no_smap : (caps : ℕ) → ℕ → Bool
no_smap caps rev3 = not (bit_and (if rev3 == 0 then 1 else 0) caps == 0)

-- What the device reads as in `smap_init`.
pub record Device : Type 0 where
  pub rev3 : ℕ
  pub rev1 : ℕ
  pub tx_busy : ℕ → Bool
  pub rx_busy : ℕ → Bool
  pub emac_busy : ℕ → Bool
  pub eeprom_result : ℤ
  pub eeprom : Eeprom

-- The error codes of `smap_init` on the adapter, or 0 where it goes on to `initialize`.
unfoldable pub check_device : (caps : ℕ) → Device → ℤ
check_device caps d =
    if no_smap caps d.rev3
    then negsuc 0
    else if ltb d.rev1 0x11
    then negsuc 5
    else if not (wait_reset d.tx_busy 9 0)
    then negsuc 1
    else if not (wait_reset d.rx_busy 9 0)
    then negsuc 2
    else if not (wait_reset d.emac_busy 9 0)
    then negsuc 3
    else check_eeprom d.eeprom_result d.eeprom
