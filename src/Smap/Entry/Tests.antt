-- ===== src/Smap/Entry/Tests.antt =====
-- smap/main.c: the theorem on `_start` for a module that is loaded with one option.
use ps2eth.Prelude.{ℕ, true, false, List, [], ◌∷◌, pos}
use ps2eth.Net.{IpAddr}
use ps2eth.Etharp.Samples.{host_a}
use ps2eth.Smap.Samples.{zero_driver, one_packet}
use ps2eth.Smap.Thread.{Thread}
use ps2eth.Smap.Init.Tests.{sample_device}
use ps2eth.Smap.Args.{str_no_auto}
use ps2eth.Smap.Args.Tests.{initial}
use ps2eth.Smap.Entry.{World}

abbrev no_thread : Thread
no_thread = record {
  state = record { driver = zero_driver; queue = one_packet };
  smap_is_initialized = false;
  smap_driver_started = false;
  net_dev_stop_flag = false;
  enable_link_check_timer = false;
  link_status = false;
  counter = 0;
}

abbrev sample_world : World
sample_world = record {
  no_resident_end = pos 1;
  initialize = pos 0;
  caps = 128;
  device = sample_device;
  mac_hi = 0x0004;
  mac_lo = 0x2a1f_605b;
  phy = record { ok = true; link_status = true; net_dev_stop_flag = false };
  settings = initial;
  netif = host_a;
  queue = one_packet;
  thread = no_thread;
}

-- "smap", "-no_auto"
abbrev sample_argv : List (List ℕ)
sample_argv = (0x73 ∷ 0x6d ∷ 0x61 ∷ 0x70 ∷ []) ∷ str_no_auto ∷ []

abbrev no_address : List ℕ → IpAddr
no_address s = 0
