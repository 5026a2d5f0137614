-- ===== src/Smap/Phy/Machine.antt =====
-- smap/smap.c: what `InitPHY` changes, and what it writes to the PHY in the fixed modes and for the DP83846A.
use ps2eth.Prelude.{
  ℕ, ◌+◌, ◌^◌, bit_and, bit_or, Bool, not, ◌&&◌, List, [], ◌∷◌, ◌++◌, ◌==◌, if◌then◌else◌,
}
use ps2eth.Smap.Regs.{has}
use ps2eth.Smap.Phy.Modes.{Dump, bmcr_anen}

-- What a register of the PHY and `NetDevStopFlag` read, by time.
pub record Bus : Type 0 where
  pub reg : ℕ → ℕ → ℕ
  pub stop : ℕ → Bool

-- The time, the writes to the PHY, and the variables that the function changes.
pub record Mach : Type 0 where
  pub clock : ℕ
  pub writes : List (ℕ × ℕ)
  pub link_status : Bool
  pub conf : ℕ

abbrev pub bmcr : ℕ
bmcr = 0

abbrev pub bmsr : ℕ
bmsr = 1

abbrev pub bmcr_rst : ℕ
bmcr_rst = 2 ^ 15

abbrev pub bmcr_100m : ℕ
bmcr_100m = 2 ^ 13

abbrev pub bmcr_rsan : ℕ
bmcr_rsan = 2 ^ 9

abbrev pub bmcr_dupm : ℕ
bmcr_dupm = 2 ^ 8

abbrev pub bmsr_ancp : ℕ
bmsr_ancp = 2 ^ 5

abbrev pub bmsr_link : ℕ
bmsr_link = 2 ^ 2

unfoldable pub tick : Mach → Mach
tick m = record m { clock = m.clock + 1 }

unfoldable pub write_reg : ℕ → ℕ → Mach → Mach
write_reg a v m = record m { writes = m.writes ++ ((a, v) ∷ []) }

unfoldable pub set_link : Bool → Mach → Mach
set_link l m = record m { link_status = l }

-- The abilities that BMSR lacks leave the configuration.
unfoldable pub lessen : (value conf : ℕ) → ℕ
lessen value conf =
    let c1 = if not (has value 0x4000) then bit_and conf 0xFFFF_FEFF else conf in
    let c2 = if not (has value 0x2000) then bit_and c1 0xFFFF_FF7F else c1 in
    let c3 = if not (has value 0x1000) then bit_and c2 0xFFFF_FFBF else c2 in
    if not (has value 0x0800) then bit_and c3 0xFFFF_FFDF else c3

-- The mode that is written for `-no_auto`.
unfoldable pub fixed_bmcr : ℕ → ℕ
fixed_bmcr conf =
    let speed = if has conf 0x180 then bmcr_100m else 0 in
    if has conf 0x140 then bit_or speed bmcr_dupm else speed

-- The writes for a DP83846A of revision 0.
unfoldable pub set_up_rev0 : Mach → Mach
set_up_rev0 m = write_reg 0x13 0 (
    write_reg 0x1E 0x8C
      (write_reg 0x1D 0x5040 (write_reg 0x1F 0 (write_reg 0x19 0x1898 (write_reg 0x13 1 m)))))

-- The set-up of a DP83846A behind the test of its error counters.
unfoldable pub set_up_dp83846a : (auto : Bool) → Dump → Mach → Mach
set_up_dp83846a auto d m =
    let only_10m =
      if auto
      then bit_and d.anar 0x1E0 == 0x020
      else bit_and d.bmcr (bit_or bmcr_dupm bmcr_100m) == 0 in
    let m1 = if only_10m then write_reg 0x1A 0x104 m else m in
    if bit_and d.phyidr2 0xF == 0 then set_up_rev0 m1 else m1

-- Whether the PHY is a DP83846A, with the identification that the SDK gives.
unfoldable pub is_dp83846a : Dump → Bool
is_dp83846a d = (d.phyidr1 == 0x2000) && (bit_and d.phyidr2 0xFFF0 == 0x5C20)

-- `RestartAutoNegotiation`
unfoldable pub restart : Mach → Mach
restart m = write_reg bmcr (bit_or bmcr_anen bmcr_rsan) m
