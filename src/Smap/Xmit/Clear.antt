-- ===== src/Smap/Xmit/Clear.antt =====
-- smap: what becomes of a packet that the stack sends.
use ps2eth.Prelude.{
  ℕ, zero, suc, ◌<◌, ◌≡◌, refl, ap, ◌≢◌, Bool, true, false, Option, none, some, List, [], ◌∷◌, ◌++◌,
  map, All, arith, ltb, Bool-cases, if◌then◌else◌, length, inl, inr,
}
use ps2eth.Smap.Queue.{TxQueue, en_q_tx_packet, smap_tx_packet_deq}
use ps2eth.Smap.Queue.Chain.{Represents, en_q_tx_packet-Represents, smap_tx_packet_deq-Represents}
use ps2eth.Smap.Queue.Fifo.{
  HasData, first, en_q_tx_packet-HasData, smap_tx_packet_deq-HasData, smap_tx_packet_next-first,
}
use ps2eth.Smap.Ring.{SmapDriverData}
use ps2eth.Smap.Xmit.{
  Effect, referenced, released, xmit_event, Sent, clear_loop, clear_packet_queue, smap_xmit, err_ok,
  enqueue_and_send, smap_low_level_output,
}

module _ (len payload : ℕ → ℕ) where
  -- The packets in front of the first one of length 0, and the others.
  pub sendable : List ℕ → List ℕ
  sendable [] = []
  sendable (p ∷ ps) = let rest = sendable ps in if ltb 0 (len p) then p ∷ rest else []

  pub behind : List ℕ → List ℕ
  behind [] = []
  behind (p ∷ ps) = let rest = behind ps in if ltb 0 (len p) then rest else p ∷ ps

  clear_loop-sendable :
      (fuel : ℕ) (ps : List ℕ) (q : TxQueue)
      → length ps < fuel
      → HasData len payload q.heap
      → Represents q ps
      → (q' : TxQueue) × ((clear_loop fuel q ≡ some (q', map released (sendable ps)))
          × (Represents q' (behind ps) × HasData len payload q'.heap))
  unfolding clear_loop sendable behind first
  clear_loop-sendable zero ps q f h r = absurd (omega arith)
  clear_loop-sendable (suc n) [] q f h r =
      (q, (rw (clear_loop, smap_tx_packet_next-first len payload q [] h r) refl, (r, h)))
  clear_loop-sendable (suc n) (p ∷ ps) q f h r =
      let e = smap_tx_packet_next-first len payload q (p ∷ ps) h r in
      elim (Bool-cases (ltb 0 (len p))) [
        | inr b ↦ (q, (rw (clear_loop, e, b, sendable) refl, (rw (behind, b) r, h)))
        | inl b ↦
            let d = smap_tx_packet_deq-Represents q p ps r in
            let t =
              clear_loop-sendable n ps (smap_tx_packet_deq q).0 (omega arith)
                (smap_tx_packet_deq-HasData len payload q h) d.0 in
            (
              t.0,
              (rw (clear_loop, e, b, d.1, t.1.0, sendable) refl, (rw (behind, b) t.1.1.0, t.1.1.1)),
            )
      ]

  -- What `ClearPacketQueue` leaves.
  pub record Left (s : SmapDriverData) (r : Sent) : Type 0 where
    pub driver : r.driver ≡ record s { packet_to_send = none }
    pub queued : List ℕ
    pub queue : Represents r.queue queued
    pub fields : HasData len payload r.queue.heap

  pub clear_packet_queue-Left :
      (s : SmapDriverData) (q : TxQueue) (ps : List ℕ)
      → HasData len payload q.heap
      → Represents q ps
      → (r : Sent) × ((clear_packet_queue (suc (length ps)) s q ≡ some r) × Left s r)
  unfolding clear_packet_queue
  clear_packet_queue-Left s q ps h r = by_packet s.packet_to_send refl
    where
      by_packet :
          (b : Option ℕ)
          → s.packet_to_send ≡ b
          → (r : Sent) × ((clear_packet_queue (suc (length ps)) s q ≡ some r) × Left s r)
      by_packet none e = (
        record { driver = record s { packet_to_send = none }; queue = q; effects = [] },
        (
          rw (clear_packet_queue, e) refl,
          record { driver = refl; queued = ps; queue = r; fields = h },
        ),
      )
      by_packet (some k) e =
          let t = clear_loop-sendable (suc (length ps)) ps q (omega arith) h r in
          (
            record {
              driver = record s { packet_to_send = none };
              queue = t.0;
              effects = map released (sendable ps);
            },
            (
              rw (clear_packet_queue, e, t.1.0) refl,
              record { driver = refl; queued = behind ps; queue = t.1.1.0; fields = t.1.1.1 },
            ),
          )

  abbrev pub is_blocked : Option ℕ → Bool
  is_blocked none = false
  is_blocked (some p) = true

  -- What the call makes of the queue `ps` with the new packet at its end.
  pub left_queued : Bool → Bool → List ℕ → List ℕ
  left_queued link blocked ps = if link then ps else if blocked then behind ps else ps

  pub effects_of : Bool → Bool → List ℕ → List Effect
  effects_of link blocked ps =
      if link then xmit_event ∷ [] else if blocked then map released (sendable ps) else []

  smap_xmit-effects :
      (link : Bool) (s : SmapDriverData) (q : TxQueue) (ps : List ℕ) (b : Option ℕ)
      → HasData len payload q.heap
      → Represents q ps
      → s.packet_to_send ≡ b
      → (r : Sent) × ((smap_xmit (suc (length ps)) link s q ≡ some r)
          × ((r.effects ≡ effects_of link (is_blocked b) ps)
              × Represents r.queue (left_queued link (is_blocked b) ps)))
  unfolding smap_xmit clear_packet_queue left_queued effects_of
  smap_xmit-effects true s q ps b h r e =
      (record { driver = s; queue = q; effects = xmit_event ∷ [] }, (refl, (refl, r)))
  smap_xmit-effects false s q ps none h r e = (
    record { driver = record s { packet_to_send = none }; queue = q; effects = [] },
    (rw (clear_packet_queue, e) refl, (refl, r)),
  )
  smap_xmit-effects false s q ps (some k) h r e =
      let t = clear_loop-sendable (suc (length ps)) ps q (omega arith) h r in
      (
        record {
          driver = record s { packet_to_send = none };
          queue = t.0;
          effects = map released (sendable ps);
        },
        (rw (clear_packet_queue, e, t.1.0) refl, (refl, t.1.1.0)),
      )

  -- A contiguous packet that is not queued is referenced and goes to the end of the queue, and the
  -- result is ERR_OK. With a link, the interrupt thread is woken. Without one, and with a packet
  -- waiting for the ring, every packet in front of the first empty one is released. Without a link
  -- and with none waiting, all packets stay queued.
  pub smap_low_level_output-effects :
      (coalesce : ℕ → ℕ) (link : Bool) (s : SmapDriverData) (q : TxQueue) (ps : List ℕ) (p : ℕ)
      → HasData len payload q.heap
      → Represents q ps
      → All (λ r. p ≢ r) ps
      → ltb (q.heap p).len (q.heap p).tot_len ≡ false
      → let all = ps ++ (p ∷ []) in
        let blocked = is_blocked s.packet_to_send in
        (r : Sent) × ((smap_low_level_output coalesce (suc (length all)) link s q p
            ≡ some (r, err_ok))
          × ((r.effects ≡ referenced p ∷ effects_of link blocked all)
              × Represents r.queue (left_queued link blocked all)))
  unfolding smap_low_level_output enqueue_and_send
  smap_low_level_output-effects coalesce link s q ps p h r new whole =
      let t =
        smap_xmit-effects link s (en_q_tx_packet p q) (ps ++ (p ∷ [])) s.packet_to_send
          (en_q_tx_packet-HasData len payload q p h) (en_q_tx_packet-Represents q p ps new r)
          refl in
      (
        record (t.0) { effects = referenced p ∷ (t.0).effects },
        (
          rw (smap_low_level_output, whole, enqueue_and_send, t.1.0) refl,
          (ap (λ es. referenced p ∷ es) t.1.1.0, t.1.1.1),
        ),
      )
