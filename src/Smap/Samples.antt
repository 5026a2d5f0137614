-- ===== src/Smap/Samples.antt =====
-- smap: a driver and packets at rest, for the tests.
use ps2eth.Prelude.{ℕ, ◌+◌, ◌<◌, ◌^◌, refl, none, [], ◌∷◌, arith}
use ps2eth.Smap.Queue.{TxQueue, en_q_tx_packet, clear_queue}
use ps2eth.Smap.Queue.Chain.{Represents, en_q_tx_packet-Represents}
use ps2eth.Smap.Queue.Fifo.{HasData, en_q_tx_packet-HasData}
use ps2eth.Smap.Ring.{SmapDriverData, RuntimeStats}
use ps2eth.Smap.System.{IsZero, NotQueued}

abbrev pub no_stats : RuntimeStats
no_stats = record {
  rx_dropped_frame_count = 0;
  rx_error_count = 0;
  rx_frame_overrun_count = 0;
  rx_frame_bad_length_count = 0;
  rx_frame_bad_fcs_count = 0;
  rx_frame_bad_alignment_count = 0;
  tx_dropped_frame_count = 0;
  tx_error_count = 0;
  tx_frame_losscr_count = 0;
  tx_frame_edefer_count = 0;
  tx_frame_collision_count = 0;
  tx_frame_underrun_count = 0;
  rx_alloc_fail = 0;
}

abbrev pub zero_driver : SmapDriverData
zero_driver = record {
  tx_buffer_space_available = 0;
  num_packets_in_tx = 0;
  tx_bd_index = 0;
  tx_dnv_bd_index = 0;
  rx_bd_index = 0;
  packet_to_send = none;
  stats = no_stats;
  tx_bd = [];
  rx_bd = [];
}

pub zero_driver-IsZero : IsZero zero_driver
zero_driver-IsZero = record { count = refl; index = refl; dnv = refl }

-- Every packet has 60 bytes, and its data right behind it.
abbrev pub sample_len : ℕ → ℕ
sample_len p = 60

abbrev pub sample_payload : ℕ → ℕ
sample_payload p = p + 16

pub sample_short : (p : ℕ) → sample_len p < 2 ^ 16
sample_short p = omega arith

abbrev pub no_packets : TxQueue
no_packets = record {
  tx_head = none;
  tx_tail = none;
  heap = λ p. record { next = none; payload = p + 16; tot_len = 60; len = 60 };
}

pub no_packets-Represents : Represents no_packets []
unfolding Represents
no_packets-Represents = (refl, refl)

pub no_packets-HasData : HasData sample_len sample_payload no_packets.heap
unfolding HasData
no_packets-HasData p = (refl, refl)

abbrev pub one_packet : TxQueue
one_packet = en_q_tx_packet 4096 no_packets

pub one_packet-Represents : Represents one_packet (4096 ∷ [])
one_packet-Represents = en_q_tx_packet-Represents no_packets 4096 [] tt no_packets-Represents

pub one_packet-HasData : HasData sample_len sample_payload one_packet.heap
one_packet-HasData =
    en_q_tx_packet-HasData sample_len sample_payload no_packets 4096 no_packets-HasData

pub no_packets-NotQueued : NotQueued 4096 (clear_queue no_packets)
unfolding clear_queue Represents
no_packets-NotQueued [] r = tt
no_packets-NotQueued (p ∷ ps) r = cc
