-- ===== src/Smap/System/Sound.antt =====
-- smap: what holds of every state that the transmit side reaches.
use ps2eth.Prelude.{
  ℕ, ◌<◌, ◌^◌, ◌≡◌, refl, sym, ◌∙◌, some-injective, none, List, [], ◌∷◌, ◌++◌, arith, length-set,
  subst,
}
use ps2eth.Smap.Queue.{TxQueue, clear_queue}
use ps2eth.Smap.Queue.Chain.{Represents, en_q_tx_packet-Represents}
use ps2eth.Smap.Queue.Fifo.{HasData, en_q_tx_packet-HasData}
use ps2eth.Smap.Ring.{SmapDriverData, Pass}
use ps2eth.Smap.Ring.Flight.{in_flight-none, in_flight-status, IsRing}
use ps2eth.Smap.Ring.Transmit.{handle_tx_reqs-Passed}
use ps2eth.Smap.Ring.Reclaim.{handle_tx_intr-Reclaimed}
use ps2eth.Smap.Xmit.{Sent}
use ps2eth.Smap.Xmit.Clear.{clear_packet_queue-Left}
use ps2eth.Smap.System.{
  init_rings, State, IsZero, Step, enqueue, request, interrupt, unlinked, device, Reach, start,
  next,
}

-- The packets have 16-bit lengths.
module _ (len payload : ℕ → ℕ) (short : (p : ℕ) → len p < 2 ^ 16) where
  pub record IsSound (a : State) : Type 0 where
    pub ring : IsRing a.driver
    pub queued : List ℕ
    pub queue : Represents a.queue queued
    pub fields : HasData len payload a.queue.heap

  pub init-IsRing : (s : SmapDriverData) → IsZero s → IsRing (init_rings s)
  unfolding init_rings
  init-IsRing s z = record {
    slots = refl;
    count = omega (arith, z.count);
    dnv = omega (arith, z.dnv);
    ahead = omega (arith, z.index, z.dnv, z.count);
    space =
        omega (
          arith,
          in_flight-none (init_rings s).tx_bd s.tx_dnv_bd_index s.num_packets_in_tx z.count,
        );
  }

  no_packet : (s : SmapDriverData) → IsRing s → IsRing (record s { packet_to_send = none })
  no_packet s v = record {
    slots = v.slots;
    count = v.count;
    dnv = v.dnv;
    ahead = v.ahead;
    space = v.space;
  }

  Step-IsSound : {a b : State} → Step a b → IsSound a → IsSound b
  Step-IsSound (enqueue tx fresh) v = record {
    ring = v.ring;
    queued = v.queued ++ (tx ∷ []);
    queue = en_q_tx_packet-Represents _ tx v.queued (fresh v.queued v.queue) v.queue;
    fields = en_q_tx_packet-HasData len payload _ tx v.fields;
  }
  Step-IsSound (request wr ps {s} {q} {p} r e) v =
      let t = handle_tx_reqs-Passed wr len payload short s q ps v.fields r v.ring in
      let same : t.0 ≡ p = some-injective t.0 p (sym t.1.0 ∙ e) in
      subst (λ (a : Pass). IsSound (record { driver = a.driver; queue = a.queue })) same
        (record {
          ring = t.1.1.ring;
          queued = t.1.1.left;
          queue = t.1.1.queue;
          fields = t.1.1.fields;
        })
  Step-IsSound (interrupt {s} {s'} {q} {n} e) v =
      let t = handle_tx_intr-Reclaimed s v.ring in
      let same : (t.0, t.1.0) ≡ (n, s') = some-injective (t.0, t.1.0) (n, s') (sym t.1.1.0 ∙ e) in
      record {
        ring = subst (λ (r : ℕ × SmapDriverData). IsRing r.1) same t.1.1.1.ring;
        queued = v.queued;
        queue = v.queue;
        fields = v.fields;
      }
  Step-IsSound (unlinked ps {s} {q} {r} l e) v =
      let t = clear_packet_queue-Left len payload s q ps v.fields l in
      let same : t.0 ≡ r = some-injective t.0 r (sym t.1.0 ∙ e) in
      subst (λ (a : Sent). IsSound (record { driver = a.driver; queue = a.queue })) same
        (record {
          ring = subst (λ (d : SmapDriverData). IsRing d) (sym t.1.1.driver) (no_packet s v.ring);
          queued = t.1.1.queued;
          queue = t.1.1.queue;
          fields = t.1.1.fields;
        })
  Step-IsSound (device i status {s} {q}) v = record {
    ring = record {
      slots = length-set s.tx_bd i _ ∙ v.ring.slots;
      count = v.ring.count;
      dnv = v.ring.dnv;
      ahead = v.ring.ahead;
      space = omega (
        arith,
        v.ring.space,
        in_flight-status s.tx_bd i status s.tx_dnv_bd_index s.num_packets_in_tx,
      );
    };
    queued = v.queued;
    queue = v.queue;
    fields = v.fields;
  }

  -- From the start of the driver on, whatever the order of the steps: the indices of the transmit ring
  -- are as far apart as there are frames in flight, which are at most 64, the free space and the
  -- frames in flight make up the transmit buffer of 4096 bytes, and the pointers of the queue link
  -- distinct packets. Packets have lengths of 16 bits and are enqueued only while they are not queued.
  pub Reach-IsSound :
      (s0 : SmapDriverData) (q0 : TxQueue) {a : State}
      → IsZero s0
      → HasData len payload q0.heap
      → Reach s0 q0 a
      → IsSound a
  unfolding clear_queue Represents
  Reach-IsSound s0 q0 z h start = record {
    ring = init-IsRing s0 z;
    queued = [];
    queue = (refl, refl);
    fields = h;
  }
  Reach-IsSound s0 q0 z h (next r st) = Step-IsSound st (Reach-IsSound s0 q0 z h r)
