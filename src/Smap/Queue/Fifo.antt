-- ===== src/Smap/Queue/Fifo.antt =====
-- smap/main.c: the transmit queue is first in, first out, under any sequence of its operations.
use ps2eth.Prelude.{ℕ, ◌≡◌, refl, ap, ◌≢◌, arith, Option, none, some, List, [], ◌∷◌, ◌++◌, All}
use ps2eth.Smap.Queue.{
  PBuf, TxQueue, set_next, link_head, en_q_tx_packet, smap_tx_packet_next, smap_tx_packet_deq,
}
use ps2eth.Smap.Queue.Chain.{
  Represents, en_q_tx_packet-Represents, smap_tx_packet_deq-Represents, smap_tx_packet_deq-empty,
}

pub data Operation : Type 0 where
  enqueue : ℕ → Operation
  peek dequeue : Operation

-- What an operation returns or frees.
pub data Result : Type 0 where
  queued : Result
  seen : ℕ × Option ℕ → Result
  freed : Option ℕ → Result

pub run_queue : List Operation → TxQueue → List Result
run_queue [] q = []
run_queue (enqueue tx ∷ ops) q = queued ∷ run_queue ops (en_q_tx_packet tx q)
run_queue (peek ∷ ops) q = seen (smap_tx_packet_next q) ∷ run_queue ops q
run_queue (dequeue ∷ ops) q =
    freed (smap_tx_packet_deq q).1 ∷ run_queue ops (smap_tx_packet_deq q).0

-- The same operations on a list of packets; `len` and `payload` are the packets' fields.
module _ (len payload : ℕ → ℕ) where
  unfoldable pub first : List ℕ → ℕ × Option ℕ
  first [] = (0, none)
  first (p ∷ ps) = (len p, some (payload p))

  pub run_list : List Operation → List ℕ → List Result
  unfolding first
  run_list [] ps = []
  run_list (enqueue tx ∷ ops) ps = queued ∷ run_list ops (ps ++ (tx ∷ []))
  run_list (peek ∷ ops) ps = seen (first ps) ∷ run_list ops ps
  run_list (dequeue ∷ ops) [] = freed none ∷ run_list ops []
  run_list (dequeue ∷ ops) (p ∷ ps) = freed (some p) ∷ run_list ops ps

-- Each packet that is enqueued is in the queue no more, or not yet.
unfoldable pub Fresh : List Operation → List ℕ → Type 0
Fresh [] ps = Unit {0}
Fresh (enqueue tx ∷ ops) ps = All (λ p. tx ≢ p) ps × Fresh ops (ps ++ (tx ∷ []))
Fresh (peek ∷ ops) ps = Fresh ops ps
Fresh (dequeue ∷ ops) [] = Fresh ops []
Fresh (dequeue ∷ ops) (p ∷ ps) = Fresh ops ps

-- The packets have the given fields.
module _ (len payload : ℕ → ℕ) where
  unfoldable pub HasData : (ℕ → PBuf) → Type 0
  HasData heap = (p : ℕ) → ((heap p).len ≡ len p) × ((heap p).payload ≡ payload p)

  set_next-HasData :
      (heap : ℕ → PBuf) (r : ℕ) (n : Option ℕ) → HasData heap → HasData (set_next heap r n)
  unfolding HasData
  set_next-HasData heap r n h p = ground (arith, h p)

  link_head-HasData : (q : TxQueue) (tx : ℕ) → HasData q.heap → HasData (link_head tx q)
  link_head-HasData q tx h = by_head q.tx_head refl
    where
      by_head : (hd : Option ℕ) → q.tx_head ≡ hd → HasData (link_head tx q)
      by_head none e = rw e h
      by_head (some r) e = rw e (set_next-HasData q.heap r (some tx) h)

  pub en_q_tx_packet-HasData :
      (q : TxQueue) (tx : ℕ) → HasData q.heap → HasData (en_q_tx_packet tx q).heap
  unfolding en_q_tx_packet
  en_q_tx_packet-HasData q tx h =
      set_next-HasData (link_head tx q) tx none (link_head-HasData q tx h)

  pub smap_tx_packet_deq-HasData :
      (q : TxQueue) → HasData q.heap → HasData (smap_tx_packet_deq q).0.heap
  unfolding smap_tx_packet_deq
  smap_tx_packet_deq-HasData q h = by_tail q.tx_tail refl
    where
      by_tail : (t : Option ℕ) → q.tx_tail ≡ t → HasData (smap_tx_packet_deq q).0.heap
      by_tail none e = rw (e, smap_tx_packet_deq) h
      by_tail (some t) e = rw (e, smap_tx_packet_deq) (set_next-HasData q.heap t none h)

  pub smap_tx_packet_next-first :
      (q : TxQueue) (ps : List ℕ)
      → HasData q.heap
      → Represents q ps
      → smap_tx_packet_next q ≡ first len payload ps
  unfolding smap_tx_packet_next first Represents HasData
  smap_tx_packet_next-first q [] h r = rw (r.1, smap_tx_packet_next) refl
  smap_tx_packet_next-first q (p ∷ ps) h r = rw (r.1.0, smap_tx_packet_next, (h p).0, (h p).1) refl

  -- The queue answers any sequence of operations as a list of packets does that is appended to at the
  -- end and read and shortened at the front, if no packet is enqueued while it is in the queue. So no
  -- packet is lost, freed twice or sent out of order.
  pub run_queue-run_list :
      (ops : List Operation) (q : TxQueue) (ps : List ℕ)
      → HasData q.heap
      → Represents q ps
      → Fresh ops ps
      → run_queue ops q ≡ run_list len payload ops ps
  unfolding run_queue run_list Fresh
  run_queue-run_list [] q ps h r f = refl
  run_queue-run_list (enqueue tx ∷ ops) q ps h r f =
      ap (λ rs. queued ∷ rs)
        (run_queue-run_list ops (en_q_tx_packet tx q) (ps ++ (tx ∷ []))
          (en_q_tx_packet-HasData q tx h) (en_q_tx_packet-Represents q tx ps f.0 r) f.1)
  run_queue-run_list (peek ∷ ops) q ps h r f =
      rw (smap_tx_packet_next-first q ps h r, run_queue-run_list ops q ps h r f) refl
  run_queue-run_list (dequeue ∷ ops) q [] h r f =
      let d = smap_tx_packet_deq-empty q r in
      rw
        (
          d.1,
          run_queue-run_list ops (smap_tx_packet_deq q).0 [] (smap_tx_packet_deq-HasData q h) d.0 f,
        )
        refl
  run_queue-run_list (dequeue ∷ ops) q (p ∷ ps) h r f =
      let d = smap_tx_packet_deq-Represents q p ps r in
      rw
        (
          d.1,
          run_queue-run_list ops (smap_tx_packet_deq q).0 ps (smap_tx_packet_deq-HasData q h) d.0 f,
        )
        refl
