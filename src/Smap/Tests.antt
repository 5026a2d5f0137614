-- ===== src/Smap/Tests.antt =====
-- smap: the theorems at concrete packets.
use ps2eth.Prelude.{ℕ, ◌≡◌, ◌==◌, if◌then◌else◌, suc, some, List, [], ◌∷◌, set, arith}
use ps2eth.Prelude.{refl, ◌-◌, ◌++◌, none, true, false, replicate}
use ps2eth.Smap.Queue.{clear_queue, en_q_tx_packet}
use ps2eth.Smap.Queue.Fifo.{
  Operation, enqueue, peek, dequeue, run_queue, run_list, Fresh, run_queue-run_list,
}
use ps2eth.Smap.Ring.{
  Bd, SmapDriverData, Pass, handle_tx_reqs, handle_tx_intr, put_frame, bd_at, round4,
}
use ps2eth.Smap.Ring.Transmit.{Passed, put_frame-IsRing, handle_tx_reqs-Passed}
use ps2eth.Smap.Ring.Reclaim.{Reclaimed, handle_tx_intr-Reclaimed}
use ps2eth.Smap.System
use ps2eth.Smap.System.{State, init_rings, Reach, start, next, device, Step}
use ps2eth.Smap.Ring.Flight.{IsRing}
use ps2eth.Smap.System.Sound.{IsSound, init-IsRing, Reach-IsSound}
use ps2eth.Smap.Regs.{rx_empty}
use ps2eth.Smap.Queue.Chain.{Represents}
use ps2eth.Smap.Receive.{handle_rx_intr}
use ps2eth.Smap.Receive.Frames.{Finishes, handle_rx_intr-Handled}
use ps2eth.Smap.Xmit.{Sent, referenced, err_ok, smap_low_level_output}
use ps2eth.Smap.Xmit.Clear.{effects_of, left_queued, smap_low_level_output-effects}
use ps2eth.Smap.Config.{parse_smap_configuration}
use ps2eth.Smap.Config.Digits.{characters, AreDecimal, parse_smap_configuration-letter}
use ps2eth.Smap.Samples.{
  zero_driver, zero_driver-IsZero, sample_len, sample_payload, sample_short, no_packets,
  no_packets-Represents, no_packets-HasData, one_packet, one_packet-Represents, one_packet-HasData,
  no_packets-NotQueued,
}

abbrev operations : List Operation
operations = enqueue 4096 ∷ enqueue 8192 ∷ peek ∷ dequeue ∷ peek ∷ dequeue ∷ dequeue ∷ []

operations-Fresh : Fresh operations []
unfolding Fresh
operations-Fresh = (tt, (((λ e. omega arith), tt), tt))

run_queue-run_list_example :
    run_queue operations no_packets ≡ run_list sample_len sample_payload operations []
run_queue-run_list_example =
    run_queue-run_list sample_len sample_payload operations no_packets [] no_packets-HasData
      no_packets-Represents operations-Fresh

abbrev driver : SmapDriverData
driver = init_rings zero_driver

handle_tx_reqs-Passed_example :
    let start : Pass = record {
      driver = driver;
      queue = one_packet;
      result = 0;
      copied = [];
      freed = [];
    } in
    (p : Pass) × ((handle_tx_reqs (λ n. n) 2 driver one_packet ≡ some p)
      × Passed (λ n. n) sample_len sample_payload (4096 ∷ []) start p)
handle_tx_reqs-Passed_example =
    handle_tx_reqs-Passed (λ n. n) sample_len sample_payload sample_short driver one_packet
      (4096 ∷ []) one_packet-HasData one_packet-Represents
      (init-IsRing sample_len sample_payload sample_short zero_driver zero_driver-IsZero)

driver-IsRing : IsRing driver
driver-IsRing = init-IsRing sample_len sample_payload sample_short zero_driver zero_driver-IsZero

abbrev busy : SmapDriverData
busy = put_frame 0 60 driver

busy-IsRing : IsRing busy
unfolding init_rings round4
busy-IsRing = put_frame-IsRing 0 60 driver (omega arith) (omega arith) (omega arith) driver-IsRing

handle_tx_intr-Reclaimed_example :
    (n : ℕ) × ((s' : SmapDriverData) × ((handle_tx_intr (suc busy.num_packets_in_tx) busy
          ≡ some (n, s'))
        × Reclaimed busy n s'))
handle_tx_intr-Reclaimed_example = handle_tx_intr-Reclaimed busy busy-IsRing

two_steps : Reach zero_driver no_packets (record {
  driver = record driver {
    tx_bd = set driver.tx_bd 0 (record (bd_at driver.tx_bd 0) { ctrl_stat = 0 });
  };
  queue = en_q_tx_packet 4096 (clear_queue no_packets);
})
two_steps = next (next start (System.enqueue 4096 no_packets-NotQueued)) (device 0 0)

Reach-IsSound_example : IsSound sample_len sample_payload sample_short (record {
  driver = record driver {
    tx_bd = set driver.tx_bd 0 (record (bd_at driver.tx_bd 0) { ctrl_stat = 0 });
  };
  queue = en_q_tx_packet 4096 (clear_queue no_packets);
})
Reach-IsSound_example =
    Reach-IsSound sample_len sample_payload sample_short zero_driver no_packets zero_driver-IsZero
      no_packets-HasData two_steps

driver_with_frame : SmapDriverData
driver_with_frame = record zero_driver {
  rx_bd =
      record { ctrl_stat = 0; length = 60; pointer = 0x4000 }
      ∷ replicate 63 (record { ctrl_stat = rx_empty; length = 0; pointer = 0 });
}

-- The device fills the second descriptor after the first round.
abbrev one_refill : ℕ → List Bd → List Bd
one_refill k bds =
    if k == 1 then set bds 1 (record { ctrl_stat = 0; length = 64; pointer = 0x4040 }) else bds

handle_rx_intr-Handled_example :
    Finishes one_refill
      (λ k. 2 - k)
      (λ k size. true)
      0
      (handle_rx_intr one_refill (λ k. 2 - k) (λ k size. true) 3 driver_with_frame)
unfolding driver_with_frame
handle_rx_intr-Handled_example =
    handle_rx_intr-Handled one_refill (λ k. 2 - k) (λ k size. true) 3 2 driver_with_frame
      (omega arith) refl (omega arith)

smap_low_level_output-effects_example :
    (r : Sent) × ((smap_low_level_output
          (λ p. p)
          2
          false
          (record zero_driver { packet_to_send = some 7 })
          no_packets
          4096
        ≡ some (r, err_ok))
      × ((r.effects ≡ referenced 4096 ∷ effects_of sample_len sample_payload false true (4096 ∷ []))
          × Represents r.queue (left_queued sample_len sample_payload false true (4096 ∷ []))))
smap_low_level_output-effects_example =
    smap_low_level_output-effects sample_len sample_payload (λ p. p) false
      (record zero_driver { packet_to_send = some 7 }) no_packets [] 4096 no_packets-HasData
      no_packets-Represents tt refl

-- "0x5e0", the driver's own default.
parse_smap_configuration-letter_example :
    parse_smap_configuration (0x30 ∷ 0x78 ∷ (characters (5 ∷ []) ++ (0x65 ∷ 0x30 ∷ []))) ≡ none
unfolding AreDecimal
parse_smap_configuration-letter_example =
    parse_smap_configuration-letter 0x65 (5 ∷ []) (0x30 ∷ []) (omega arith, tt) (omega arith)
      (omega arith)
