-- ===== src/Smap/Ring/Transmit.antt =====
-- smap/xfer.c: `HandleTxReqs` keeps the ring sound, and ends.
use ps2eth.Prelude.{
  ℕ, zero, suc, ◌+◌, ◌%◌, ◌^◌, ◌≤◌, ◌<◌, ◌≡◌, refl, sym, ap, ◌∙◌, true, Option, none, some, List,
  arith, Bool-cases, length, length-set, inl, inr, map, [], ◌∷◌, ◌++◌, ◌⊎◌, append_nil,
  append_assoc, ltb, leb,
}
use ps2eth.Net.{u16}
use ps2eth.Smap.Regs.{bd_max_entry}
use ps2eth.Smap.Queue.{TxQueue}
use ps2eth.Smap.Queue.Chain.{Represents, smap_tx_packet_deq-Represents}
use ps2eth.Smap.Queue.Fifo.{HasData, smap_tx_packet_deq-HasData, smap_tx_packet_next-first, first}
use ps2eth.Smap.Ring.{
  hold, load, SmapDriverData, Pass, round4, frame_bd, put_frame, retire, transmit, tx_step, tx_loop,
  handle_tx_reqs,
}
use ps2eth.Smap.Ring.Flight.{in_flight-put, IsRing}

pub put_frame-IsRing :
    (wr len : ℕ) (s : SmapDriverData)
    → len < 2 ^ 16
    → s.num_packets_in_tx < bd_max_entry
    → round4 len ≤ s.tx_buffer_space_available
    → IsRing s
    → IsRing (put_frame wr len s)
unfolding put_frame frame_bd
put_frame-IsRing wr len s short room fits v =
    let start = s.tx_dnv_bd_index in
    let n = s.num_packets_in_tx in
    let slot : s.tx_bd_index % bd_max_entry ≡ (start + n) % bd_max_entry = omega (arith, v.ahead) in
    let whole : u16 len ≡ len = omega arith in
    let more =
      in_flight-put s.tx_bd (frame_bd wr len) (s.tx_bd_index % bd_max_entry) start n v.slots room
        slot in
    let next : (n + 1) % 2 ^ 8 ≡ suc n = omega arith in
    record {
      slots = length-set s.tx_bd (s.tx_bd_index % bd_max_entry) _ ∙ v.slots;
      count = omega arith;
      dnv = v.dnv;
      ahead = omega (arith, v.ahead);
      space = rw (next, more, whole) (omega (arith, v.space));
    }

IsRing-packet_to_send :
    (s : SmapDriverData) (pkt : Option ℕ) → IsRing s → IsRing (record s { packet_to_send = pkt })
IsRing-packet_to_send s pkt v = record {
  slots = v.slots;
  count = v.count;
  dnv = v.dnv;
  ahead = v.ahead;
  space = v.space;
}

-- What a pass of `HandleTxReqs` over the queued packets `ps` has done when it ends.
module _ (wr len payload : ℕ → ℕ) where
  -- Why the packets of the list wait: there is none, the first is empty, the ring is full, or the
  -- transmit buffer has no room for the first.
  pub Waits : List ℕ → SmapDriverData → Type 0
  Waits [] s = Unit {0}
  Waits (p ∷ ps) s =
      (len p ≡ 0)
      ⊎ ((bd_max_entry ≤ s.num_packets_in_tx) ⊎ (s.tx_buffer_space_available < round4 (len p)))

  pub frames : List ℕ → List (Option ℕ × ℕ)
  frames ps = map (λ p. (some (payload p), len p)) ps

  pub record Passed (ps : List ℕ) (p p' : Pass) : Type 0 where
    pub taken : List ℕ
    pub left : List ℕ
    pub split : ps ≡ taken ++ left
    pub freed : p'.freed ≡ p.freed ++ taken
    pub copied : p'.copied ≡ p.copied ++ frames taken
    pub result : p'.result ≡ p.result + length taken
    pub queue : Represents p'.queue left
    pub fields : HasData len payload p'.queue.heap
    pub ring : IsRing p'.driver
    pub waits : Waits left p'.driver

  module _ (short : (p : ℕ) → len p < 2 ^ 16) where
    sent_one :
        (p : Pass) (x : ℕ) (ps : List ℕ)
        → HasData len payload p.queue.heap
        → Represents p.queue (x ∷ ps)
        → IsRing p.driver
        → p.driver.num_packets_in_tx < bd_max_entry
        → round4 (len x) ≤ p.driver.tx_buffer_space_available
        → let p' = retire (load wr (len x) (hold (some (payload x)) p)) in
          HasData len payload p'.queue.heap
          × (Represents p'.queue ps
              × (IsRing p'.driver
                  × ((p'.freed ≡ p.freed ++ (x ∷ []))
                      × ((p'.copied ≡ p.copied ++ ((some (payload x), len x) ∷ []))
                          × (p'.result ≡ p.result + 1)))))
    unfolding retire load hold
    sent_one p x ps h r v room fits =
        let d = smap_tx_packet_deq-Represents p.queue x ps r in
        let s = record (p.driver) { packet_to_send = some (payload x) } in
        let w =
          put_frame-IsRing (wr p.result) (len x) s (short x) room fits
            (IsRing-packet_to_send p.driver (some (payload x)) v) in
        (
          smap_tx_packet_deq-HasData len payload p.queue h,
          (d.0, (IsRing-packet_to_send _ none w, (rw d.1 refl, (refl, refl)))),
        )

    -- One more packet is taken in front of those of a later pass.
    one_more :
        (p p1 p' : Pass) (x : ℕ) (ps : List ℕ)
        → p1.freed ≡ p.freed ++ (x ∷ [])
        → p1.copied ≡ p.copied ++ ((some (payload x), len x) ∷ [])
        → p1.result ≡ p.result + 1
        → Passed ps p1 p'
        → Passed (x ∷ ps) p p'
    unfolding frames
    one_more p p1 p' x ps ef ec er w = record {
      taken = x ∷ w.taken;
      left = w.left;
      split = ap (λ r. x ∷ r) w.split;
      freed = w.freed ∙ ap (λ r. r ++ w.taken) ef ∙ append_assoc p.freed (x ∷ []) w.taken;
      copied =
          w.copied
          ∙ ap (λ r. r ++ frames w.taken) ec
          ∙ append_assoc p.copied ((some (payload x), len x) ∷ []) (frames w.taken);
      result = omega (arith, w.result, er);
      queue = w.queue;
      fields = w.fields;
      ring = w.ring;
      waits = w.waits;
    }

    stopped :
        (p : Pass) (ps : List ℕ)
        → HasData len payload p.queue.heap
        → Represents p.queue ps
        → IsRing p.driver
        → Waits ps p.driver
        → Passed ps p p
    unfolding frames
    stopped p ps h r v w = record {
      taken = [];
      left = ps;
      split = refl;
      freed = sym (append_nil p.freed);
      copied = sym (append_nil p.copied);
      result = omega arith;
      queue = r;
      fields = h;
      ring = v;
      waits = w;
    }

    held :
        (p : Pass) (pkt : Option ℕ) (x : ℕ) (ps : List ℕ)
        → HasData len payload p.queue.heap
        → Represents p.queue (x ∷ ps)
        → IsRing p.driver
        → Waits (x ∷ ps) p.driver
        → Passed (x ∷ ps) p (hold pkt p)
    unfolding hold frames Waits
    held p pkt x ps h r v w = record {
      taken = [];
      left = x ∷ ps;
      split = refl;
      freed = sym (append_nil p.freed);
      copied = sym (append_nil p.copied);
      result = omega arith;
      queue = r;
      fields = h;
      ring = IsRing-packet_to_send p.driver pkt v;
      waits = w;
    }

    -- The pass ends with fuel for one round more than there are packets.
    pub tx_loop-Passed :
        (fuel : ℕ) (ps : List ℕ) (p : Pass)
        → length ps < fuel
        → HasData len payload p.queue.heap
        → Represents p.queue ps
        → IsRing p.driver
        → (p' : Pass) × ((tx_loop wr fuel p ≡ some p') × Passed ps p p')
    unfolding tx_loop tx_step transmit first Waits hold
    tx_loop-Passed zero ps p f h r v = absurd (omega arith)
    tx_loop-Passed (suc n) [] p f h r v =
        let e = smap_tx_packet_next-first len payload p.queue [] h r in
        (p, (rw (tx_loop, tx_step, e) refl, stopped p [] h r v tt))
    tx_loop-Passed (suc n) (x ∷ ps) p f h r v =
        let e = smap_tx_packet_next-first len payload p.queue (x ∷ ps) h r in
        let pkt = some (payload x) in
        let space = p.driver.tx_buffer_space_available in
        elim (Bool-cases (ltb (len x) 1)) [
          | inl b ↦
              (p, (rw (tx_loop, tx_step, e, b) refl, stopped p (x ∷ ps) h r v (inl (ground arith))))
          | inr b ↦ elim (Bool-cases (ltb p.driver.num_packets_in_tx bd_max_entry)) [
            | inr c ↦ (
              hold pkt p,
              (
                rw (tx_loop, tx_step, e, b, transmit, c) refl,
                held p pkt x ps h r v (inr (inl (ground arith))),
              ),
            )
            | inl c ↦
                let pos : ltb 0 (len x) ≡ true = ground arith in
                elim (Bool-cases (leb (round4 (len x)) space)) [
                  | inr d ↦ (
                    hold pkt p,
                    (
                      rw (tx_loop, tx_step, e, b, transmit, c, pos, d) refl,
                      held p pkt x ps h r v (inr (inr (ground arith))),
                    ),
                  )
                  | inl d ↦
                      let s = sent_one p x ps h r v (ground arith) (ground arith) in
                      let p1 = retire (load wr (len x) (hold pkt p)) in
                      let t = tx_loop-Passed n ps p1 (omega arith) s.0 s.1.0 s.1.1.0 in
                      (
                        t.0,
                        (
                          rw (tx_loop, tx_step, e, b, transmit, c, pos, d) t.1.0,
                          one_more p p1 t.0 x ps s.1.1.1.0 s.1.1.1.1.0 s.1.1.1.1.1 t.1.1,
                        ),
                      )
                ]
          ]
        ]

    -- `HandleTxReqs` ends. It takes the packets from the front of the queue, in order: it copies
    -- exactly their data to the FIFO, frees exactly them, and counts them, and leaves the rest queued
    -- and the ring sound. It stops only where the queue is empty, its first packet has length 0, every
    -- descriptor is in flight, or the transmit buffer has no room for the first packet.
    pub handle_tx_reqs-Passed :
        (s : SmapDriverData) (q : TxQueue) (ps : List ℕ)
        → HasData len payload q.heap
        → Represents q ps
        → IsRing s
        → let start : Pass = record {
          driver = s;
          queue = q;
          result = 0;
          copied = [];
          freed = [];
        } in
          (p : Pass) × ((handle_tx_reqs wr (suc (length ps)) s q ≡ some p) × Passed ps start p)
    unfolding handle_tx_reqs
    handle_tx_reqs-Passed s q ps h r v = tx_loop-Passed (suc (length ps)) ps _ (omega arith) h r v
