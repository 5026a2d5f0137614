-- ===== src/Smap/Thread/Tests.antt =====
-- smap/smap.c: a round of the interrupt thread on a driver with one packet in the queue.
use ps2eth.Prelude.{◌-◌, refl, true, false, ◌∷◌, [], arith}
use ps2eth.Smap.System.{State, init_rings}
use ps2eth.Smap.System.Sound.{IsSound, init-IsRing}
use ps2eth.Prelude.{◌≡◌, some}
use ps2eth.Smap.Start.{smap_init_start}
use ps2eth.Smap.Start.Agrees.{outcome, smap_init_start-handle_start}
use ps2eth.Smap.Thread.{handle_start, Thread, Events, Phy, Inputs, round}
use ps2eth.Smap.Thread.Round.{Ends, round-Ends}
use ps2eth.Smap.Samples.{
  zero_driver, zero_driver-IsZero, sample_len, sample_payload, sample_short, one_packet,
  one_packet-Represents, one_packet-HasData,
}

abbrev sample_state : State
sample_state = record { driver = init_rings zero_driver; queue = one_packet }

abbrev sample_sound : IsSound sample_len sample_payload sample_short sample_state
sample_sound = record {
  ring = init-IsRing sample_len sample_payload sample_short zero_driver zero_driver-IsZero;
  queued = 4096 ∷ [];
  queue = one_packet-Represents;
  fields = one_packet-HasData;
}

abbrev sample_thread : Thread
sample_thread = record {
  state = sample_state;
  smap_is_initialized = true;
  smap_driver_started = true;
  net_dev_stop_flag = false;
  enable_link_check_timer = true;
  link_status = true;
  counter = 3;
}

abbrev xmit_and_intr : Events
xmit_and_intr = record { start = false; stop = false; intr = true; xmit = true; link_check = true }

abbrev sample_phy : Phy
sample_phy = record { ok = true; link_status = true; net_dev_stop_flag = false }

abbrev sample_inputs : Inputs
sample_inputs = record {
  emac3 = false;
  rxend = true;
  rxdnv = true;
  txdnv = true;
  device = λ k bds. bds;
  frame_cnt = λ k. 1 - k;
  alloc = λ k size. true;
  wr = λ n. n;
  bmsr_link = true;
  phy = some sample_phy;
}

round-Ends_example :
    Ends sample_len sample_payload sample_short 65
      (omega arith)
      xmit_and_intr
      sample_phy
      (round 65 xmit_and_intr sample_inputs sample_thread)
unfolding init_rings
round-Ends_example =
    round-Ends sample_len sample_payload sample_short 65 (omega arith) xmit_and_intr sample_inputs
      sample_phy 1 sample_thread sample_sound refl refl (omega arith) (omega arith) (omega arith)

smap_init_start-handle_start_example :
    outcome (
      handle_start
        (record xmit_and_intr { start = true })
        sample_phy
        (record {
          thread = record sample_thread { smap_is_initialized = false };
          calls = [];
          reset_counter = false;
          xmit = true;
        }))
    ≡ some (
      record ((smap_init_start sample_phy
          (record sample_thread { smap_is_initialized = false })).0) { smap_driver_started = true },
      (smap_init_start sample_phy (record sample_thread { smap_is_initialized = false })).1,
    )
smap_init_start-handle_start_example =
    smap_init_start-handle_start (record xmit_and_intr { start = true }) sample_phy
      (record sample_thread { smap_is_initialized = false }) false true refl refl refl
