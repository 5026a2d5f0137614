-- ===== src/Smap/Phy/Best.antt =====
-- smap/smap.c, the end of `InitPHY`: the negotiated link mode against the order of the modes in IEEE 802.3.
use ps2eth.Prelude.{
  ℕ, ◌+◌, ◌^◌, ◌%◌, ◌≡◌, refl, sym, ◌∙◌, Bool, true, arith, ◌==◌, bit_and, bit_and_mod, Bool-cases,
  all_below, at-all_below, inl, inr, ◌⊎◌, if◌then◌else◌, ◌&&◌, ◌||◌,
}
use ps2eth.Smap.Regs.{has}
use ps2eth.Smap.Phy.Modes.{Dump, bmcr_anen, common_mode, link_mode, negotiated}

-- The best mode that both sides are able to, with the pause of a full duplex mode: 100BASE-TX full duplex,
-- 100BASE-TX, 10BASE-T full duplex, 10BASE-T.
unfoldable pub best_mode : ℕ → ℕ
best_mode value =
    let pause = if has value 0x400 then 0x40 else 0 in
    if has value 0x100
    then 8 + pause
    else if has value 0x80
    then 4
    else if has value 0x40
    then 2 + pause
    else 1

-- What the code's mode is for the abilities `v`.
is_right : ℕ → Bool
unfolding best_mode common_mode link_mode
is_right v =
    (link_mode (common_mode v) == best_mode v)
    || ((bit_and v 0x1C0 == 0xC0) && (link_mode (common_mode v) % 0x40 == 8))

all_right : all_below 2048 is_right ≡ true
unfolding is_right best_mode common_mode link_mode
all_right = refl

is_right-mod : (v : ℕ) → is_right (v % 2 ^ 11) ≡ is_right v
unfolding is_right best_mode common_mode link_mode
is_right-mod v =
    rw
      (
        bit_and_mod 11 v 0x400 (omega arith),
        bit_and_mod 11 v 0x140 (omega arith),
        bit_and_mod 11 v 0x100 (omega arith),
        bit_and_mod 11 v 0x180 (omega arith),
        bit_and_mod 11 v 0x80 (omega arith),
        bit_and_mod 11 v 0x40 (omega arith),
        bit_and_mod 11 v 0x1C0 (omega arith),
      )
      refl

is_right-all : (v : ℕ) → is_right v ≡ true
is_right-all v =
    sym (is_right-mod v) ∙ at-all_below 2048 is_right all_right (v % 2 ^ 11) (omega arith)

right_cases :
    (v : ℕ)
    → is_right v ≡ true
    → (link_mode (common_mode v) ≡ best_mode v)
      ⊎ ((bit_and v 0x1C0 ≡ 0xC0) × (link_mode (common_mode v) % 0x40 ≡ 8))
unfolding is_right
right_cases v h = elim (Bool-cases (link_mode (common_mode v) == best_mode v)) [
  | inl e ↦ inl (ground (arith, e))
  | inr e ↦ inr (ground (arith, e, h))
]

-- After an auto-negotiation the link mode is the best that both sides are able to, with one exception: where
-- the sides share 100BASE-TX and 10BASE-T full duplex but not 100BASE-TX full duplex, the driver takes
-- 100BASE-TX full duplex.
pub link_mode-negotiated :
    (d : Dump) (conf : ℕ)
    → has d.bmcr bmcr_anen ≡ true
    → (link_mode (negotiated d conf) ≡ best_mode (bit_and d.anar d.anlpar))
      ⊎ ((bit_and (bit_and d.anar d.anlpar) 0x1C0 ≡ 0xC0)
          × (link_mode (negotiated d conf) % 0x40 ≡ 8))
unfolding negotiated
link_mode-negotiated d conf h =
    rw (negotiated, h)
      (right_cases (bit_and d.anar d.anlpar) (is_right-all (bit_and d.anar d.anlpar)))
