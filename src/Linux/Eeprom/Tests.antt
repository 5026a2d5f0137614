-- ===== src/Linux/Eeprom/Tests.antt =====
-- smap-linux/smap.c: `GetNodeAddr` on a three-wire EEPROM.
use ps2eth.Prelude.{
  ℕ, ◌+◌, ◌-◌, ◌/◌, ◌%◌, ◌^◌, ◌<◌, ◌≡◌, ◌≢◌, ◌⊎◌, refl, arith, Bool, true, false, [], ◌∷◌, ◌==◌,
  if◌then◌else◌, pos, negsuc,
}
use ps2eth.Linux.Eeprom.{Ppwc, Wire, get_node_addr}
use ps2eth.Linux.Eeprom.Serial.{Phase, command, reading, edge, IsEeprom, get_node_addr-words}

-- The address 00:04:1f:82:30:60, and its sum.
abbrev sample_words : ℕ → ℕ
sample_words a =
    if a == 0
    then 0x0400
    else if a == 1
    then 0x821F
    else if a == 2
    then 0x6030
    else if a == 3
    then 0xE64F
    else 0

data Chip : Type 0 where
  off : Chip
  on : Phase → Bool → Chip

abbrev on_clock : Bool → Bool → Phase → Bool → Chip
on_clock din false f high = on f false
on_clock din true f false = on (edge din f) true
on_clock din true f true = on f true

abbrev chip_write : Ppwc → Chip → Chip
chip_write p off = if p.csel then (if p.sclk then off else on (command []) false) else off
chip_write p (on f high) = if p.csel then on_clock p.din p.sclk f high else off

abbrev chip_bit : Chip → Bool
chip_bit (on (reading a k) high) = sample_words a / 2 ^ (16 - k) % 2 == 1
chip_bit x = false

chip_write-deselected : (p : Ppwc) (x : Chip) → p.csel ≡ false → chip_write p x ≡ off
chip_write-deselected p off e = rw e refl
chip_write-deselected p (on f high) e = rw e refl

sample_words-fits : (a : ℕ) → sample_words a < 2 ^ 16
sample_words-fits a = ground arith

bit_value : (n : ℕ) → (if n % 2 == 1 then 1 else 0) ≡ n % 2
bit_value n = ground arith

sample-IsEeprom : IsEeprom Chip chip_write chip_bit sample_words
sample-IsEeprom = record {
  Off = (λ x. x ≡ off);
  Shows = (λ x f high. x ≡ on f high);
  fits = sample_words-fits;
  deselected = (λ p x e c. chip_write-deselected p x e);
  selected = (λ p x e c o. rw (o, e, c) refl);
  falls = (λ p x f high e c s. rw (s, e, c) refl);
  rises = (λ p x f e c s. rw (s, e, c) refl);
  output = (λ x a k h s.
      let e : 16 - (k + 1) ≡ 15 - k = omega arith in
      rw (s, e) (bit_value (sample_words a / 2 ^ (15 - k))));
}

abbrev power_on : Wire Chip chip_write chip_bit
power_on = record { ppwc = record { din = false; sclk = false; csel = false }; chip = off }

get_node_addr-words_example :
    (((0x0400 + 0x821F + 0x6030) % 2 ^ 16 ≡ 0xE64F)
      × ((get_node_addr Chip chip_write chip_bit power_on).0
          ≡ (pos 0, 0x0400 ∷ 0x821F ∷ 0x6030 ∷ [])))
    ⊎ (((0x0400 + 0x821F + 0x6030) % 2 ^ 16 ≢ 0xE64F)
        × ((get_node_addr Chip chip_write chip_bit power_on).0 ≡ (negsuc 0, 0 ∷ 0 ∷ 0 ∷ [])))
get_node_addr-words_example =
    get_node_addr-words Chip chip_write chip_bit sample_words sample-IsEeprom power_on
