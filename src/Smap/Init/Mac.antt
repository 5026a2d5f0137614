-- ===== src/Smap/Init/Mac.antt =====
-- smap/smap.c: the MAC address goes through the registers unchanged.
use ps2eth.Prelude.{
  ℕ, ◌+◌, ◌*◌, ◌/◌, ◌%◌, ◌^◌, ◌<◌, ◌≡◌, refl, [], ◌∷◌, bit_or_comm, bit_or_fields, arith,
}
use ps2eth.Net.{u8}
use ps2eth.Smap.Init.{swap16, addr_hi, addr_lo, smap_get_mac_address}

swap16-eq : (w : ℕ) → w < 2 ^ 16 → swap16 w ≡ w % 2 ^ 8 * 2 ^ 8 + w / 2 ^ 8
unfolding swap16
swap16-eq w h =
    omega (arith, bit_or_comm (w / 2 ^ 8) (w * 2 ^ 8), bit_or_fields 8 w (w / 2 ^ 8) (omega arith))

addr_lo-eq :
    (w1 w2 : ℕ)
    → w1 < 2 ^ 16
    → w2 < 2 ^ 16
    → addr_lo w1 w2 ≡ w1 % 2 ^ 8 * 2 ^ 24 + w1 / 2 ^ 8 * 2 ^ 16 + w2 % 2 ^ 8 * 2 ^ 8 + w2 / 2 ^ 8
unfolding addr_lo
addr_lo-eq w1 w2 h1 h2 =
    let e2 = swap16-eq w2 h2 in
    omega (arith, swap16-eq w1 h1, e2, bit_or_fields 16 (swap16 w1) (swap16 w2) (omega arith))

addr_hi-eq : (w : ℕ) → w < 2 ^ 16 → addr_hi w ≡ w % 2 ^ 8 * 2 ^ 8 + w / 2 ^ 8
unfolding addr_hi
addr_hi-eq w h = swap16-eq w h

bytes :
    (hi lo w0 w1 w2 : ℕ)
    → w0 < 2 ^ 16
    → w1 < 2 ^ 16
    → w2 < 2 ^ 16
    → hi ≡ w0 % 2 ^ 8 * 2 ^ 8 + w0 / 2 ^ 8
    → lo ≡ w1 % 2 ^ 8 * 2 ^ 24 + w1 / 2 ^ 8 * 2 ^ 16 + w2 % 2 ^ 8 * 2 ^ 8 + w2 / 2 ^ 8
    → smap_get_mac_address hi lo
      ≡ (w0 % 256) ∷ (w0 / 256) ∷ (w1 % 256) ∷ (w1 / 256) ∷ (w2 % 256) ∷ (w2 / 256) ∷ []
unfolding smap_get_mac_address
bytes hi lo w0 w1 w2 h0 h1 h2 eh el =
    let b0 : u8 (hi / 2 ^ 8) ≡ w0 % 256 = omega arith in
    let b1 : u8 hi ≡ w0 / 256 = omega arith in
    let b2 : u8 (lo / 2 ^ 24) ≡ w1 % 256 = omega arith in
    let b3 : u8 (lo / 2 ^ 16) ≡ w1 / 256 = omega arith in
    let b4 : u8 (lo / 2 ^ 8) ≡ w2 % 256 = omega arith in
    let b5 : u8 lo ≡ w2 / 256 = omega arith in rw (b0, b1, b2, b3, b4, b5) refl

-- `SMAPGetMACAddress` gives the bytes of the EEPROM's first three words, the low byte of each first.
pub smap_get_mac_address-eeprom :
    (w0 w1 w2 : ℕ)
    → w0 < 2 ^ 16
    → w1 < 2 ^ 16
    → w2 < 2 ^ 16
    → smap_get_mac_address (addr_hi w0) (addr_lo w1 w2)
      ≡ (w0 % 256) ∷ (w0 / 256) ∷ (w1 % 256) ∷ (w1 / 256) ∷ (w2 % 256) ∷ (w2 / 256) ∷ []
smap_get_mac_address-eeprom w0 w1 w2 h0 h1 h2 =
    bytes (addr_hi w0) (addr_lo w1 w2) w0 w1 w2 h0 h1 h2 (addr_hi-eq w0 h0) (addr_lo-eq w1 w2 h1 h2)
