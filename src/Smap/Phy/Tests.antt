-- ===== src/Smap/Phy/Tests.antt =====
-- smap/smap.c: runs of `InitPHY`, and the theorems on it at them.
use ps2eth.Prelude.{
  ℕ, ◌%◌, ◌≡◌, refl, true, false, arith, leb, ◌==◌, if◌then◌else◌, [], ◌∷◌, ◌⊎◌, bit_and,
}
use ps2eth.Smap.Phy.Modes.{Dump, negotiated, link_mode}
use ps2eth.Smap.Phy.Best.{best_mode, link_mode-negotiated}
use ps2eth.Smap.Phy.Machine.{Mach, Bus, bmcr, tick, write_reg, bmsr}
use ps2eth.Smap.Phy.Init.{failed, init_phy, reset_loop}
use ps2eth.Smap.Samples.{zero_driver, one_packet}
use ps2eth.Smap.Thread.{Thread, Work}
use ps2eth.Smap.Phy.Starts.{start_with, Begun, start_with-Begun}
use ps2eth.Net.{u16}
use ps2eth.Smap.Phy.Registers.{read_loop, smap_read_phy}

-- A PHY whose registers read `bmcr_value` and, from the time 9 on, a link; the stop flag is set at 40.
abbrev sample_bus : ℕ → Bus
sample_bus bmcr_value = record {
  reg = (λ t a.
      if a == bmcr
      then bmcr_value
      else if a == bmsr
      then (if leb 9 t then 0x7824 else 0x7820)
      else 0x01E1);
  stop = (λ t. leb 40 t);
}

abbrev at_start : Mach
at_start = record { clock = 0; writes = []; link_status = false; conf = 0x5E0 }

-- A PHY whose BMCR still shows the reset at the first read.
init_phy_reset :
    init_phy (sample_bus 0x8000) true false 41 at_start
    ≡ failed (record { clock = 1; writes = (0, 0x8000) ∷ []; link_status = false; conf = 0x5E0 })
unfolding init_phy reset_loop tick write_reg
init_phy_reset = refl

abbrev half_and_full : Dump
half_and_full = record {
  bmcr = 0x1000;
  bmsr = 0x7824;
  phyidr1 = 0x2000;
  phyidr2 = 0x5C21;
  anar = 0x01E1;
  anlpar = 0x00C1;
}

link_mode-negotiated_example :
    (link_mode (negotiated half_and_full 0x5E0) ≡ best_mode (bit_and 0x01E1 0x00C1))
    ⊎ ((bit_and (bit_and 0x01E1 0x00C1) 0x1C0 ≡ 0xC0)
        × (link_mode (negotiated half_and_full 0x5E0) % 0x40 ≡ 8))
link_mode-negotiated_example = link_mode-negotiated half_and_full 0x5E0 refl

-- The operation of a read is complete from the eighth access on.
abbrev sta_from : ℕ → ℕ → ℕ
sta_from c t = if leb c t then 0x7824_8000 else 0

read_value : smap_read_phy (sta_from 7) ≡ 0x7824
unfolding smap_read_phy read_loop u16
read_value = refl

abbrev idle_thread : Thread
idle_thread = record {
  state = record { driver = zero_driver; queue = one_packet };
  smap_is_initialized = false;
  smap_driver_started = false;
  net_dev_stop_flag = false;
  enable_link_check_timer = false;
  link_status = false;
  counter = 0;
}

abbrev begun_work : Work
begun_work = record { thread = idle_thread; calls = []; reset_counter = false; xmit = false }

start_with-Begun_example :
    Begun
      (sample_bus 0x1000)
      begun_work
      0
      (start_with (sample_bus 0x1000) true false 41 at_start begun_work)
start_with-Begun_example =
    start_with-Begun (sample_bus 0x1000) begun_work (λ t t' l e. ground (arith, l, e)) true false 41
      40 at_start refl (omega arith)
