-- ===== src/Smap/Phy/Modes.antt =====
-- smap/smap.c, the end of `InitPHY`: the link mode, from the registers of the PHY.
use ps2eth.Prelude.{ℕ, ◌/◌, ◌^◌, bit_and, bit_or, Bool, false, if◌then◌else◌}
use ps2eth.Smap.Regs.{has}

abbrev pub bmcr_anen : ℕ
bmcr_anen = 2 ^ 12

-- `RegDump`
pub record Dump : Type 0 where
  pub bmcr : ℕ
  pub bmsr : ℕ
  pub phyidr1 : ℕ
  pub phyidr2 : ℕ
  pub anar : ℕ
  pub anlpar : ℕ

-- `LinkSpeed100M`, `LinkFDX` and `FlowControlEnabled`.
pub record Mode : Type 0 where
  pub link_speed_100m : Bool
  pub link_fdx : Bool
  pub flow_control_enabled : Bool

-- The mode of two sides with the abilities `value` in common.
unfoldable pub common_mode : ℕ → Mode
common_mode value =
    let fdx = has value 0x140 in
    record {
      link_speed_100m = has value 0x180;
      link_fdx = fdx;
      flow_control_enabled = if fdx then has value 0x400 else false;
    }

unfoldable pub fixed_mode : (bmcr conf : ℕ) → Mode
fixed_mode bmcr conf = record {
  link_speed_100m = has (bmcr / 2 ^ 13) 1;
  link_fdx = has (bmcr / 2 ^ 8) 1;
  flow_control_enabled = has (conf / 2 ^ 10) 1;
}

unfoldable pub negotiated : Dump → (conf : ℕ) → Mode
negotiated d conf =
    if has d.bmcr bmcr_anen then common_mode (bit_and d.anar d.anlpar) else fixed_mode d.bmcr conf

-- `LinkMode`
unfoldable pub link_mode : Mode → ℕ
link_mode m =
    let result =
      if m.link_speed_100m then (if m.link_fdx then 8 else 4) else (if m.link_fdx then 2 else 1) in
    if m.flow_control_enabled then bit_or result 0x40 else result

abbrev pub e3_fdx_enable : ℕ
e3_fdx_enable = 2 ^ 31

-- SMAP_E3_FLOWCTRL_ENABLE and SMAP_E3_ALLOW_PF.
abbrev pub e3_flow_control : ℕ
e3_flow_control = bit_or (2 ^ 28) (2 ^ 27)

-- What is written to SMAP_R_EMAC3_MODE1, where it read `old`.
unfoldable pub emac3_mode1 : Mode → ℕ → ℕ
emac3_mode1 m old =
    let v0 = bit_and old 0x67FF_FFFF in
    let v1 = if m.link_fdx then bit_or v0 e3_fdx_enable else v0 in
    if m.flow_control_enabled then bit_or v1 e3_flow_control else v1
