-- ===== src/Smap/Phy/Init.antt =====
-- smap/smap.c: `InitPHY`, with its loops over the registers of the PHY. Each read and each test of the stop
-- flag takes one unit of time; a loop that may go on for ever takes fuel.
use ps2eth.Prelude.{
  ℕ, zero, suc, ◌+◌, bit_and, bit_or, Bool, true, false, not, ◌||◌, ◌==◌, leb, if◌then◌else◌,
}
use ps2eth.Smap.Regs.{has}
use ps2eth.Smap.Phy.Modes.{Dump, bmcr_anen}
use ps2eth.Smap.Phy.Machine.{
  Bus, Mach, tick, write_reg, set_link, lessen, fixed_bmcr, set_up_dp83846a, is_dp83846a, restart,
  bmcr, bmsr, bmcr_rst, bmcr_100m, bmcr_rsan, bmsr_ancp, bmsr_link,
}

-- How a part of the function ends: it goes on, a loop with a bound gives up, the function returns 0 for the
-- stop flag, or -1 for the reset.
pub data Step : Type 0 where
  next gave_up stopped reset_error : Mach → Step
  no_fuel : Step

abbrev pub and_next : Step → (Mach → Step) → Step
and_next (next m) f = f m
and_next (gave_up m) f = gave_up m
and_next (stopped m) f = stopped m
and_next (reset_error m) f = reset_error m
and_next no_fuel f = no_fuel

abbrev pub or_next : Step → (Mach → Step) → Step
or_next (next m) f = next m
or_next (gave_up m) f = f m
or_next (stopped m) f = stopped m
or_next (reset_error m) f = reset_error m
or_next no_fuel f = no_fuel

-- How the function ends: -1, 0 for the stop flag, or 0 with the registers that its link mode is from.
pub data PhyEnd : Type 0 where
  failed halted : Mach → PhyEnd
  linked : Mach → Dump → PhyEnd
  out_of_fuel : PhyEnd

-- The loops that give up do so inside of `negotiate` only.
abbrev pub ends_with : Step → (Mach → PhyEnd) → PhyEnd
ends_with (next m) f = f m
ends_with (gave_up m) f = out_of_fuel
ends_with (stopped m) f = halted m
ends_with (reset_error m) f = failed m
ends_with no_fuel f = out_of_fuel

module _ (b : Bus) where
  abbrev pub has_bits : ℕ → ℕ → Mach → Bool
  has_bits a mask m = has (b.reg m.clock a) mask

  -- `if(NetDevStopFlag) return 0;`
  unfoldable pub check_stop : Mach → Step
  check_stop m = if b.stop m.clock then stopped (tick m) else next (tick m)

  -- The loop after the write of SMAP_PHY_BMCR_RST.
  unfoldable pub reset_loop : ℕ → ℕ → Mach → Step
  reset_loop zero i m = no_fuel
  reset_loop (suc n) i m =
      let rest = and_next (check_stop (tick m)) (λ m1. reset_loop n (i + 1) m1) in
      if has_bits bmcr bmcr_rst m
      then (if leb i 0 then reset_error (tick m) else rest)
      else next (tick m)

  -- The loop behind `WaitLink`, after `i` rounds.
  unfoldable pub wait_link : ℕ → ℕ → Mach → Step
  wait_link zero i m = no_fuel
  wait_link (suc n) i m = and_next (check_stop m) (λ m1.
      let m2 = tick m1 in
      let rest = wait_link n (i + 1) (if leb 5 (i + 1) then set_link false m2 else m2) in
      if has_bits bmsr bmsr_link m1 then next (set_link true m2) else rest)

  -- `for(i=0; !link; i++){ if(stop) return 0; if(i>=bound) break; }`, with `n` rounds left of the bound,
  -- and the test of `i` behind it: a link in the last round comes too late.
  unfoldable pub poll_link : ℕ → Mach → Step
  poll_link zero m =
      if has_bits bmsr bmsr_link m then gave_up (tick m) else and_next (check_stop (tick m)) gave_up
  poll_link (suc n) m =
      let rest = and_next (check_stop (tick m)) (λ m1. poll_link n m1) in
      if has_bits bmsr bmsr_link m then next (set_link true (tick m)) else rest

  unfoldable pub three_seconds : Mach → Step
  three_seconds m = and_next (check_stop m) (λ m1. and_next (check_stop m1) (λ m2. check_stop m2))

  -- One round of the loop over `AutoNegoRetries`, up to its break.
  unfoldable pub try_once : Mach → Step
  try_once m = and_next (three_seconds m) (λ m1.
      if bit_and (b.reg m1.clock bmsr) (bit_or bmsr_ancp 0x10) == bmsr_ancp
      then poll_link 20 (tick m1)
      else gave_up (tick m1))

  unfoldable pub try_retries : ℕ → Mach → Step
  try_retries zero m = gave_up m
  try_retries (suc n) m = or_next (try_once m) (λ m1. try_retries n (restart m1))

  -- A forced mode: the write of BMCR, and the wait for a link.
  unfoldable pub try_forced : ℕ → Mach → Step
  try_forced mode m = and_next (check_stop (write_reg bmcr mode m)) (λ m1. poll_link 30 m1)

  -- `RepeatAutoNegoProcess`
  unfoldable pub negotiate : ℕ → Mach → Step
  negotiate zero m = no_fuel
  negotiate (suc n) m = or_next (try_retries 3 m) (λ m1.
      or_next (try_forced bmcr_100m m1) (λ m2. or_next (try_forced 0 m2) (λ m3. negotiate n m3)))

  -- The set-up of the auto-negotiation without pin straps.
  unfoldable pub advertise : Mach → Mach
  advertise m =
      let m1 = write_reg bmcr 0 m in
      let c = lessen (b.reg m1.clock bmsr) m1.conf in
      let m2 = record (tick m1) { conf = c } in
      let anar = bit_or (bit_and c 0x5E0) (bit_and (b.reg m2.clock 4) 0x1F) in
      write_reg bmcr (bit_or bmcr_anen bmcr_rsan) (write_reg 4 anar (tick m2))

  unfoldable pub dump_at : ℕ → Dump
  dump_at t = record {
    bmcr = b.reg t 0;
    bmsr = b.reg (t + 1) 1;
    phyidr1 = b.reg (t + 2) 2;
    phyidr2 = b.reg (t + 3) 3;
    anar = b.reg (t + 4) 4;
    anlpar = b.reg (t + 5) 5;
  }

  -- From `for(i=0; i<6; i++) RegDump[i]=...` on: `again` is `goto WaitLink`, for a DP83846A whose error
  -- counters are not clear after half a second.
  unfoldable pub finish : (auto : Bool) → (again : Mach → PhyEnd) → Mach → PhyEnd
  finish auto again m =
      let d = dump_at m.clock in
      let m1 = record m { clock = m.clock + 6 } in
      let m2 = record m1 { clock = m1.clock + 4 } in
      let noisy = not (b.reg (m1.clock + 3) 0x15 == 0) || leb 0x11 (b.reg (m1.clock + 2) 0x14) in
      let back = again (write_reg bmcr 0 m2) in
      if is_dp83846a d
      then (if auto
          then (if noisy then back else linked (set_up_dp83846a auto d m2) d)
          else linked (set_up_dp83846a auto d m1) d)
      else linked m1 d

  -- From `WaitLink` on.
  unfoldable pub wait_and_finish : (auto : Bool) → ℕ → Mach → PhyEnd
  wait_and_finish auto zero m = out_of_fuel
  wait_and_finish auto (suc n) m =
      ends_with (wait_link (suc n) 0 m) (λ m1. finish auto (λ m2. wait_and_finish auto n m2) m1)

  -- The auto-negotiation, and what follows it.
  unfoldable pub negotiate_and_finish : ℕ → Mach → PhyEnd
  negotiate_and_finish n m =
      ends_with (negotiate n m) (λ m1. finish true (λ m2. wait_and_finish true n m2) m1)

  -- Behind the reset.
  unfoldable pub choose_mode : (auto strap : Bool) → ℕ → Mach → PhyEnd
  choose_mode auto strap n m =
      let anen = has_bits bmcr bmcr_anen m in
      if not auto
      then wait_and_finish auto n (write_reg bmcr (fixed_bmcr m.conf) m)
      else if not strap
      then negotiate_and_finish n (advertise m)
      else if not anen
      then wait_and_finish auto n (tick m)
      else negotiate_and_finish n (tick m)

  -- `InitPHY`. `auto` and `strap` are EnableAutoNegotiation and EnablePinStrapConfig.
  unfoldable pub init_phy : (auto strap : Bool) → ℕ → Mach → PhyEnd
  init_phy auto strap n m =
      ends_with (reset_loop n 0 (write_reg bmcr bmcr_rst m)) (λ m1. choose_mode auto strap n m1)
