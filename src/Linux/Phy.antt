-- ===== src/Linux/Phy.antt =====
-- smap-linux/smap.c: the reset and the auto-negotiation of the PHY with its forced modes, `PhyInit`. What the
-- registers read is an argument, by time; delays and messages, with the reads for them, are left out. The
-- call of a forced mode in another takes fuel: two units are enough.
pub mod Kept
pub mod Settles
mod Tests
use ps2eth.Prelude.{
  ℕ, zero, suc, ◌+◌, ◌-◌, ◌*◌, ◌/◌, ◌%◌, ◌^◌, bit_and, bit_or, Bool, true, false, not, ◌&&◌, Option,
  none, some, List, [], ◌∷◌, ◌++◌, ◌==◌, leb, if◌then◌else◌,
}
use ps2eth.Net.{u32}
use ps2eth.Smap.Regs.{has}
use ps2eth.Smap.Phy.Registers.{phy_op_comp}
use ps2eth.Smap.Phy.Machine.{
  bmcr, bmcr_rst, bmcr_100m, bmcr_rsan, bmcr_dupm, bmsr, bmsr_ancp, bmsr_link,
}
use ps2eth.Smap.Phy.Modes.{bmcr_anen, e3_fdx_enable, e3_flow_control}
use ps2eth.Linux.Media.{
  physts, sts_ancp, sts_fdx, sts_10m, sts_link, e3_ignore_sqe, e3_media_10m, e3_media_100m,
  e3_media_msk, tests, clear, negotiated_mode1, equals,
}

abbrev pub loop_count : ℕ
loop_count = 10000

-- The registers by time: the value of `ReadPhy` with `none` for -1, SMAP_EMAC3_MODE1 and SPD_R_REV_1.
pub record Registers : Type 0 where
  pub read_phy : ℕ → ℕ → Option ℕ
  pub mode1 : ℕ → ℕ
  pub rev_1 : ℕ → ℕ

-- The bits of `u32Flags` for the link.
pub record Flags : Type 0 where
  pub link_establish : Bool
  pub link_valid : Bool
  pub check_force_100m : Bool
  pub check_force_10m : Bool

-- The time, the writes to the PHY and to SMAP_EMAC3_MODE1, `u32Flags` and `u32TXMode`.
pub record Smap : Type 0 where
  pub clock : ℕ
  pub phy_writes : List (ℕ × ℕ)
  pub mode1_writes : List ℕ
  pub flags : Flags
  pub tx_mode : ℕ

-- A loop over a register: a value that it waits for, or none in time.
pub data Wait : Type 0 where
  found : Option ℕ → Smap → Wait
  expired : Smap → Wait

unfoldable pub tick : Smap → Smap
tick s = record s { clock = s.clock + 1 }

unfoldable pub write_phy : ℕ → ℕ → Smap → Smap
write_phy a v s = record s { phy_writes = s.phy_writes ++ ((a, v) ∷ []) }

unfoldable pub write_mode1 : ℕ → Smap → Smap
write_mode1 v s = record s { mode1_writes = s.mode1_writes ++ (v ∷ []) }

-- SMAP_EMAC3_MODE1 for a forced mode.
unfoldable pub forced_mode1 : Flags → ℕ → ℕ
forced_mode1 f v0 =
    let v1 = clear (bit_or (bit_or e3_fdx_enable e3_flow_control) e3_media_msk) v0 in
    if f.check_force_100m
    then bit_or v1 e3_media_100m
    else if f.check_force_10m
    then bit_or (clear e3_ignore_sqe v1) e3_media_10m
    else v1

unfoldable pub dsp_writes : Smap → Smap
dsp_writes s = write_phy 0x13 0 (
    write_phy 0x1E 0x8C
      (write_phy 0x1D 0x5040 (write_phy 0x1F 0 (write_phy 0x19 0x1898 (write_phy 0x13 1 s)))))

unfoldable pub set_link_valid : Smap → Smap
set_link_valid s = record s { flags = record (s.flags) { link_valid = true } }

abbrev pub on_wait {ℓ} : {A : Type ℓ} → Wait → (Option ℕ → Smap → A) → (Smap → A) → A
on_wait (found v s) f g = f v s
on_wait (expired s) f g = g s

abbrev pub check_10m : Bool → Smap → Smap
check_10m c s = record s { flags = record (s.flags) { check_force_10m = c } }

abbrev pub check_100m : Bool → Smap → Smap
check_100m c s = record s { flags = record (s.flags) { check_force_100m = c } }

-- `ForceSPD100M` and `ForceSPD10M` up to their calls of `ConfirmForceSPD`.
unfoldable pub force_100m : Smap → Smap
force_100m s = check_100m true (write_phy bmcr bmcr_100m s)

unfoldable pub force_10m : Smap → Smap
force_10m s = check_10m true (write_phy bmcr 0 s)

abbrev pub with_result : Bool → Option Smap → Option (Bool × Smap)
with_result b none = none
with_result b (some s) = some (b, s)

module _ (r : Registers) where
  unfoldable pub wait_for : ℕ → (Option ℕ → Bool) → ℕ → Smap → Wait
  wait_for reg ok zero s = expired s
  wait_for reg ok (suc n) s =
      let v = r.read_phy s.clock reg in
      let rest = wait_for reg ok n (tick s) in if ok v then found v (tick s) else rest

  -- `PhyReset`
  unfoldable pub phy_reset : Smap → Wait
  phy_reset s =
      wait_for bmcr (λ v. not (tests bmcr_rst v)) loop_count
        (write_phy bmcr (bit_or (bit_or (bit_or bmcr_rst bmcr_100m) bmcr_anen) bmcr_dupm) s)

  -- Behind the test of the revision.
  unfoldable pub confirm_speed : Smap → Smap
  confirm_speed s =
      on_wait (wait_for physts (λ v. tests sts_ancp v && tests sts_link v) loop_count s)
        (λ v s1. write_mode1 (negotiated_mode1 v (r.mode1 s1.clock)) (tick s1)) (λ s1. s1)

  -- `ConfirmAutoNegotiation`, whose result is 0 or -1.
  unfoldable pub confirm_auto_negotiation : Smap → Bool × Smap
  confirm_auto_negotiation s =
      on_wait (wait_for bmsr (λ v. tests bmsr_ancp v) 3000 s)
        (λ v s1. (true, (if leb 0x13 (r.rev_1 s1.clock) then tick s1 else confirm_speed (tick s1))))
        (λ s1. (false, s1))

  unfoldable pub negotiation_retries : ℕ → Smap → Bool × Smap
  negotiation_retries zero s = (false, s)
  negotiation_retries (suc n) s =
      let v = bit_or (bit_or (bit_or bmcr_100m bmcr_anen) bmcr_dupm) bmcr_rsan in
      let c = confirm_auto_negotiation (write_phy bmcr v s) in
      let rest = negotiation_retries n c.1 in if c.0 then c else rest

  -- `AutoNegotiation`
  unfoldable pub auto_negotiation : (enable : Bool) → Smap → Bool × Smap
  auto_negotiation enable s =
      let v = bit_or (bit_or bmcr_100m bmcr_anen) bmcr_dupm in
      let c = confirm_auto_negotiation (if enable then write_phy bmcr v s else s) in
      if c.0 then c else negotiation_retries 3 c.1

  -- `PhySetDSP`
  unfoldable pub phy_set_dsp : Smap → Smap
  phy_set_dsp s =
      let s1 = record s { clock = s.clock + 3; tx_mode = r.mode1 s.clock } in
      let id1 = r.read_phy (s.clock + 1) 2 in
      let id2 = r.read_phy (s.clock + 2) 3 in
      let s2 = tick (dsp_writes s1) in
      let slow = equals 7 3 (r.read_phy s1.clock physts) in
      if not s.flags.link_establish
      then s
      else if not (equals 0xFFFF_FFFF 0x2000 id1 && equals 0xFFF0 0x5C20 id2)
      then set_link_valid s1
      else if s.flags.link_valid
      then s1
      else set_link_valid (if slow then write_phy 0x1A 0x104 s2 else s2)

  -- From the label `validlink` on.
  unfoldable pub valid_link : Smap → Smap
  valid_link s =
      let s1 = write_mode1 (forced_mode1 s.flags (r.mode1 s.clock)) (tick s) in
      phy_set_dsp (record s1 {
        flags = record (s.flags) {
          link_establish = true;
          check_force_100m = false;
          check_force_10m = false;
        };
      })

  -- `ConfirmForceSPD` without a link in BMSR; `confirm` is the call in `ForceSPD10M`.
  unfoldable pub no_link : (confirm : Smap → Option Smap) → Smap → Option Smap
  no_link confirm s =
      let forced = confirm (force_10m (check_100m false s)) in
      let s1 = tick (check_10m false s) in
      if s.flags.check_force_100m
      then forced
      else if s.flags.check_force_10m
      then some (
          if tests sts_link (r.read_phy s.clock physts) then valid_link (check_10m true s1) else s1)
      else some s

  -- `ConfirmForceSPD`
  unfoldable pub confirm_force_spd : ℕ → Smap → Option Smap
  confirm_force_spd zero s = none
  confirm_force_spd (suc n) s =
      on_wait (wait_for bmsr (λ v. tests bmsr_link v) 1000 s) (λ v s1. some (valid_link s1))
        (λ s1. no_link (λ t. confirm_force_spd n t) s1)

  -- `PhyInit`, whose result is 0 or -1.
  unfoldable pub phy_init : (reset : Bool) → ℕ → Smap → Option (Bool × Smap)
  phy_init reset fuel s =
      on_wait (phy_reset s)
        (λ v s1.
          let c = auto_negotiation false s1 in
          let s2 = record (c.1) { flags = record (c.1.flags) { link_establish = true } } in
          if reset
          then some (true, s1)
          else if c.0
          then some (true, phy_set_dsp s2)
          else with_result true (confirm_force_spd fuel (force_100m c.1)))
        (λ s1. some (false, s1))
