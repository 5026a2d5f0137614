-- ===== src/Smap/System.antt =====
-- smap: the transmit side as a whole. The TCP/IP stack enqueues packets, and clears the queue while
-- there is no link; the interrupt thread moves them to the ring and reclaims what was sent; and the
-- device writes the status of descriptors. Each is one step, in any order.
pub mod Sound
use ps2eth.Prelude.{
  ℕ, suc, ◌+◌, ◌<◌, ◌^◌, ◌≡◌, ◌≢◌, Option, none, some, List, [], ◌∷◌, set, length, replicate, All,
}
use ps2eth.Smap.Regs.{bd_max_entry, tx_bufsize, rx_empty}
use ps2eth.Smap.Queue.{TxQueue, en_q_tx_packet, clear_queue}
use ps2eth.Smap.Queue.Chain.{Represents}
use ps2eth.Smap.Ring.{Bd, SmapDriverData, Pass, bd_at, handle_tx_reqs, handle_tx_intr}
use ps2eth.Smap.Xmit.{Sent, clear_packet_queue}

-- The part of `smap_init` that sets up the rings; the counters of the static `SmapDriverData` start
-- at zero.
unfoldable pub init_rings : SmapDriverData → SmapDriverData
init_rings s = record s {
  tx_bd = replicate bd_max_entry (record { ctrl_stat = 0; length = 0; pointer = 0 });
  rx_bd = replicate bd_max_entry (record { ctrl_stat = rx_empty; length = 0; pointer = 0 });
  tx_buffer_space_available = tx_bufsize;
}

pub record State : Type 0 where
  pub driver : SmapDriverData
  pub queue : TxQueue

pub record IsZero (s : SmapDriverData) : Type 0 where
  pub count : s.num_packets_in_tx ≡ 0
  pub index : s.tx_bd_index ≡ 0
  pub dnv : s.tx_dnv_bd_index ≡ 0

-- Whether the packet is in no chain of the queue.
abbrev pub NotQueued : ℕ → TxQueue → Type 0
NotQueued tx q = (ps : List ℕ) → Represents q ps → All (λ p. tx ≢ p) ps

pub data Step : State → State → Type 0 where
  enqueue :
      (tx : ℕ) {s : SmapDriverData} {q : TxQueue}
      → NotQueued tx q
      → Step (record { driver = s; queue = q }) (record { driver = s; queue = en_q_tx_packet tx q })
  request :
      (wr : ℕ → ℕ) (ps : List ℕ) {s : SmapDriverData} {q : TxQueue} {p : Pass}
      → Represents q ps
      → handle_tx_reqs wr (suc (length ps)) s q ≡ some p
      → Step (record { driver = s; queue = q }) (record { driver = p.driver; queue = p.queue })
  interrupt :
      {s s' : SmapDriverData} {q : TxQueue} {n : ℕ}
      → handle_tx_intr (suc s.num_packets_in_tx) s ≡ some (n, s')
      → Step (record { driver = s; queue = q }) (record { driver = s'; queue = q })
  unlinked :
      (ps : List ℕ) {s : SmapDriverData} {q : TxQueue} {r : Sent}
      → Represents q ps
      → clear_packet_queue (suc (length ps)) s q ≡ some r
      → Step (record { driver = s; queue = q }) (record { driver = r.driver; queue = r.queue })
  device :
      (i status : ℕ) {s : SmapDriverData} {q : TxQueue}
      → Step
          (record { driver = s; queue = q })
          (record {
            driver = record s {
              tx_bd = set s.tx_bd i (record (bd_at s.tx_bd i) { ctrl_stat = status });
            };
            queue = q;
          })

-- From the start of the driver on.
pub data Reach (s0 : SmapDriverData) (q0 : TxQueue) : State → Type 0 where
  start : Reach s0 q0 (record { driver = init_rings s0; queue = clear_queue q0 })
  next : {a b : State} → Reach s0 q0 a → Step a b → Reach s0 q0 b
