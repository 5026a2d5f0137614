-- ===== src/Smap/Init/Resets.antt =====
-- smap/smap.c: when the checks of `smap_init` pass.
use ps2eth.Prelude.{
  ℕ, zero, suc, ◌+◌, ◌%◌, ◌^◌, ◌≤◌, ◌≡◌, refl, subst, ◌↔◌, Bool, true, false, arith, bit_and,
  Bool-cases, inl, inr,
}
use ps2eth.Prelude.{ℤ, pos, negsuc, ◌&&◌, ◌==◌, bit_and_step, zero-bit_and, ◌/◌, ltb}
use ps2eth.Smap.Init.{wait_reset, no_smap, Device, Eeprom, check_eeprom, checksum16, check_device}

-- The wait for a reset succeeds exactly if one of its `i + 1` reads finds the reset bit clear.
pub wait_reset-polls :
    (busy : ℕ → Bool) (i k : ℕ)
    → (wait_reset busy i k ≡ true) ↔ ((j : ℕ) × ((j ≤ i) × (busy (k + j) ≡ false)))
unfolding wait_reset
wait_reset-polls busy zero k =
    let here : k + 0 ≡ k = omega arith in
    elim (Bool-cases (busy k)) [
      | inl b ↦ (
        (λ e. absurd (ground (arith, e, b))),
        λ w.
            let z : k + w.0 ≡ k = omega (arith, w.1.0) in
            absurd (ground (arith, b, subst (λ n. busy n ≡ false) z w.1.1)),
      )
      | inr b ↦ ((λ e. (0, (omega arith, rw here b))), λ w. rw b refl)
    ]
wait_reset-polls busy (suc i) k =
    let here : k + 0 ≡ k = omega arith in
    let later = wait_reset-polls busy i (k + 1) in
    elim (Bool-cases (busy k)) [
      | inr b ↦ ((λ e. (0, (omega arith, rw here b))), λ w. rw b refl)
      | inl b ↦ (
        (λ e.
            let w = later.0 (ground (arith, e, b)) in
            let z : k + 1 + w.0 ≡ k + suc w.0 = omega arith in
            (suc w.0, (omega (arith, w.1.0), subst (λ n. busy n ≡ false) z w.1.1))),
        λ w. rw b (later.1 (shifted w b)),
      )
    ]
  where
    shifted :
        ((j : ℕ) × ((j ≤ suc i) × (busy (k + j) ≡ false)))
        → busy k ≡ true
        → (j : ℕ) × ((j ≤ i) × (busy (k + 1 + j) ≡ false))
    shifted (zero, w) b =
        let z : k + 0 ≡ k = omega arith in
        absurd (ground (arith, b, subst (λ n. busy n ≡ false) z w.1))
    shifted (suc j, w) b =
        let z : k + suc j ≡ k + 1 + j = omega arith in
        (j, (omega (arith, w.0), subst (λ n. busy n ≡ false) z w.1))

bit_and_one : (n : ℕ) → bit_and 1 n ≡ n % 2
bit_and_one n = omega (arith, bit_and_step 1 n, zero-bit_and (n / 2))

-- The test for the adapter lets every device through, if the bit that it means to test is not the
-- lowest one.
pub no_smap-even : (caps rev3 : ℕ) → caps % 2 ≡ 0 → no_smap caps rev3 ≡ false
unfolding no_smap
no_smap-even caps rev3 even = elim (Bool-cases (rev3 == 0)) [
  | inl b ↦ rw (no_smap, b, bit_and_one caps, even) refl
  | inr b ↦ rw (no_smap, b, zero-bit_and caps) refl
]

-- What the device shows where `smap_init` accepts it: a revision of 17 or more, three resets that end
-- within ten reads, and an EEPROM with an address and its checksum.
pub record Accepted (d : Device) : Type 0 where
  pub revision : 17 ≤ d.rev1
  pub tx_reset : (j : ℕ) × ((j ≤ 9) × (d.tx_busy (0 + j) ≡ false))
  pub rx_reset : (j : ℕ) × ((j ≤ 9) × (d.rx_busy (0 + j) ≡ false))
  pub emac_reset : (j : ℕ) × ((j ≤ 9) × (d.emac_busy (0 + j) ≡ false))
  pub checksum : (d.eeprom.w0 + d.eeprom.w1 + d.eeprom.w2) % 2 ^ 16 ≡ d.eeprom.w3
  pub address : ((d.eeprom.w0 == 0) && ((d.eeprom.w1 == 0) && (d.eeprom.w2 == 0))) ≡ false

eeprom_parts :
    (r : ℤ) (e : Eeprom)
    → check_eeprom r e ≡ pos 0
    → (((e.w0 == 0) && ((e.w1 == 0) && (e.w2 == 0))) ≡ false)
      × ((e.w0 + e.w1 + e.w2) % 2 ^ 16 ≡ e.w3)
unfolding check_eeprom checksum16
eeprom_parts (negsuc n) e q = elim (Bool-cases (n == 0)) [
  | inl b ↦ absurd (ground (arith, q, b))
  | inr b ↦ absurd (ground (arith, q, b))
]
eeprom_parts (pos n) e q = ground (arith, q)

-- The answers of the tests on a device that is accepted.
check_device-parts :
    (caps : ℕ) (d : Device)
    → check_device caps d ≡ pos 0
    → (ltb d.rev1 0x11 ≡ false)
      × ((wait_reset d.tx_busy 9 0 ≡ true)
          × ((wait_reset d.rx_busy 9 0 ≡ true)
              × ((wait_reset d.emac_busy 9 0 ≡ true)
                  × (check_eeprom d.eeprom_result d.eeprom ≡ pos 0))))
unfolding check_device
check_device-parts caps d q = ground (arith, q)

-- A device that `smap_init` accepts has passed every test but the first: revision, resets, address and
-- checksum of the EEPROM.
pub check_device-Accepted : (caps : ℕ) (d : Device) → check_device caps d ≡ pos 0 → Accepted d
check_device-Accepted caps d q =
    let t = check_device-parts caps d q in
    let e = eeprom_parts d.eeprom_result d.eeprom t.1.1.1.1 in
    record {
      revision = ground (arith, t.0);
      tx_reset = (wait_reset-polls d.tx_busy 9 0).0 t.1.0;
      rx_reset = (wait_reset-polls d.rx_busy 9 0).0 t.1.1.0;
      emac_reset = (wait_reset-polls d.emac_busy 9 0).0 t.1.1.1.0;
      checksum = e.1;
      address = e.0;
    }
