-- ===== src/Smap/Thread/Serves.antt =====
-- smap/smap.c: what `IntrHandlerThread` does with the interrupts, the queue and the link.
use ps2eth.Prelude.{
  ℕ, ◌-◌, ◌^◌, ◌<◌, ◌≡◌, refl, ap, sym, subst, ◌∙◌, Bool, true, false, Option, some, [], ◌∷◌, arith,
  Bool-cases, if◌then◌else◌, length, length-append, ltb, leb, inl, inr,
}
use ps2eth.Smap.Regs.{bd_max_entry}
use ps2eth.Smap.Ring.{SmapDriverData, Pass, handle_tx_reqs, handle_tx_intr}
use ps2eth.Smap.Ring.Flight.{IsRing}
use ps2eth.Smap.Ring.Transmit.{tx_loop-Passed}
use ps2eth.Smap.Ring.Reclaim.{intr_loop-Reclaimed}
use ps2eth.Smap.Receive.{RxPass, handle_rx_intr}
use ps2eth.Smap.Receive.Frames.{start-Handled, rx_loop-Handled, Finishes}
use ps2eth.Smap.System.{State}
use ps2eth.Smap.System.Sound.{IsSound}
use ps2eth.Smap.Thread.Keeps.{retyped, rx_loop-IsRing}
use ps2eth.Smap.Thread.{
  Thread, Events, Phy, Inputs, clear_txdnv, clear_rxend, clear_emac3, intr_enable, txdnv_enable,
  after_rx, after_tx, Work, say, with_driver, and_then, handle_rxend, handle_rxdnv, reclaim_sent,
  handle_txdnv, handle_intr, send_queued, check_link_status, link_checked, finish, serve,
}

module _ (len payload : ℕ → ℕ) (short : (p : ℕ) → len p < 2 ^ 16) (fuel : ℕ)
    (enough : bd_max_entry < fuel) where
  -- The state is sound, and the fuel is enough for its queue.
  pub record Good (a : State) : Type 0 where
    pub sound : IsSound len payload short a
    pub few : length sound.queued < fuel

  unfoldable pub IsByte : SmapDriverData → Type 0
  IsByte s = s.rx_bd_index < 2 ^ 8

  -- The count of received frames reads 0 in a round of `HandleRxIntr` that the fuel reaches.
  pub record Quiet (i : Inputs) : Type 0 where
    pub last : ℕ
    pub none_left : i.frame_cnt last ≡ 0
    pub within : last < fuel

  driver-Good :
      (a : State) (s : SmapDriverData) → IsRing s → Good a → Good (record a { driver = s })
  driver-Good a s r g = record {
    sound = record {
      ring = r;
      queued = g.sound.queued;
      queue = g.sound.queue;
      fields = g.sound.fields;
    };
    few = g.few;
  }

  unfoldable pub Result : Option Work → Type 0
  Result o = (w : Work) × ((o ≡ some w) × Good w.thread.state)

  handle_rxend-Good :
      (i : Inputs) (w : Work)
      → Quiet i
      → IsByte w.thread.state.driver
      → Good w.thread.state
      → Result (handle_rxend fuel i w)
  unfolding handle_rxend handle_rx_intr Result IsByte Finishes
  handle_rxend-Good i w y rx g =
      let s = w.thread.state.driver in
      let p0 : RxPass = record { driver = s; received = 0; actions = [] } in
      elim (Bool-cases i.rxend) [
        | inr b ↦ (w, (rw (handle_rxend, b) refl, g))
        | inl b ↦
            let t =
              rx_loop-Handled i.device i.frame_cnt i.alloc fuel 0 s.rx_bd_index y.last p0
                y.none_left (omega arith) (omega (arith, y.within))
                (start-Handled i.device i.frame_cnt i.alloc s rx) in
            let r =
              rx_loop-IsRing i.device i.frame_cnt i.alloc fuel 0 p0 t.1.0 t.1.1.0 g.sound.ring in
            (
              after_rx t.1.0 (say (clear_rxend ∷ []) w),
              (
                rw (handle_rxend, b, handle_rx_intr, t.1.1.0) refl,
                driver-Good w.thread.state t.1.0.driver r g,
              ),
            )
      ]

  handle_rxdnv-Good :
      (i : Inputs) (w : Work) → Good w.thread.state → Good (handle_rxdnv i w).thread.state
  unfolding handle_rxdnv
  handle_rxdnv-Good i w g = elim (Bool-cases i.rxdnv) [
    | inl b ↦
        rw (handle_rxdnv, b)
          (driver-Good w.thread.state _
            (retyped w.thread.state.driver _ refl refl refl refl refl g.sound.ring) g)
    | inr b ↦ rw (handle_rxdnv, b) g
  ]

  reclaim_sent-Good : (w : Work) → Good w.thread.state → Result (reclaim_sent fuel w)
  unfolding reclaim_sent handle_tx_intr Result
  reclaim_sent-Good w g =
      let s = w.thread.state.driver in
      let t = intr_loop-Reclaimed fuel 0 s (omega (arith, g.sound.ring.count)) g.sound.ring in
      (
        with_driver t.1.0 w,
        (
          rw (reclaim_sent, handle_tx_intr, t.1.1.0) refl,
          driver-Good w.thread.state t.1.0 t.1.1.1.ring g,
        ),
      )

  handle_txdnv-Good : (i : Inputs) (w : Work) → Good w.thread.state → Result (handle_txdnv fuel i w)
  unfolding handle_txdnv Result
  handle_txdnv-Good i w g = elim (Bool-cases i.txdnv) [
    | inl b ↦
        rw (handle_txdnv, b)
          (reclaim_sent-Good (record (say (clear_txdnv ∷ []) w) { xmit = true }) g)
    | inr b ↦ (w, (rw (handle_txdnv, b) refl, g))
  ]

  send_queued-Good : (i : Inputs) (w : Work) → Good w.thread.state → Result (send_queued fuel i w)
  unfolding send_queued handle_tx_reqs Result
  send_queued-Good i w g = elim (Bool-cases w.xmit) [
    | inr b ↦ (w, (ground (arith, b), g))
    | inl b ↦
        let v = g.sound in
        let a = w.thread.state in
        let p0 : Pass = record {
          driver = a.driver;
          queue = a.queue;
          result = 0;
          copied = [];
          freed = [];
        } in
        let t =
          tx_loop-Passed i.wr len payload short fuel v.queued p0 g.few v.fields v.queue v.ring in
        let n = ap (λ l. length l) t.1.1.split ∙ length-append t.1.1.taken t.1.1.left in
        (
          after_tx t.0 w,
          (
            ground (arith, b, t.1.0),
            record {
              sound = record {
                ring = t.1.1.ring;
                queued = t.1.1.left;
                queue = t.1.1.queue;
                fields = t.1.1.fields;
              };
              few = omega (arith, g.few, n);
            },
          ),
        )
  ]

  handle_intr-Good :
      (i : Inputs) (w : Work)
      → Quiet i
      → IsByte w.thread.state.driver
      → Good w.thread.state
      → Result (handle_intr fuel i w)
  unfolding handle_intr Result
  handle_intr-Good i w y rx g =
      let w1 = if i.emac3 then say (clear_emac3 ∷ []) w else w in
      let same : w1.thread ≡ w.thread = ground arith in
      let a =
        handle_rxend-Good i w1 y (subst (λ (t : Thread). IsByte t.state.driver) (sym same) rx)
          (subst (λ (t : Thread). Good t.state) (sym same) g) in
      let b = handle_txdnv-Good i (handle_rxdnv i a.0) (handle_rxdnv-Good i a.0 a.1.1) in
      (
        b.0,
        (ap (λ o. and_then o (λ w2. handle_txdnv fuel i (handle_rxdnv i w2))) a.1.0 ∙ b.1.0, b.1.1),
      )

  check_link_status-Good :
      (bmsr_link : Bool) (phy : Phy) (w : Work)
      → Good w.thread.state
      → Result (check_link_status bmsr_link (some phy) w)
  unfolding check_link_status Result
  check_link_status-Good true phy w g = (w, (refl, g))
  check_link_status-Good false phy w g = (link_checked phy w, (refl, g))

  finish-Good :
      (ef : Events) (i : Inputs) (phy : Phy) (w : Work)
      → i.phy ≡ some phy
      → Good w.thread.state
      → Result (finish ef i w)
  unfolding finish Result
  finish-Good ef i phy w returns g =
      by_flags w.reset_counter ef.link_check (leb w3.thread.counter 0)
    where
      w1 : Work
      w1 = say (intr_enable ∷ []) w

      w2 : Work
      w2 = if ltb 0 w.thread.state.driver.num_packets_in_tx then say (txdnv_enable ∷ []) w1 else w1

      same : w2.thread ≡ w.thread
      same = ground arith

      w3 : Work
      w3 = record w2 { thread = record (w2.thread) { counter = w2.thread.counter - 1 } }

      g2 : Good w2.thread.state
      g2 = subst (λ (t : Thread). Good t.state) (sym same) g

      by_flags :
          (b c d : Bool)
          → Result (
              if b
              then some (record w2 { thread = record (w2.thread) { counter = 3 } })
              else if c
              then (if d then check_link_status i.bmsr_link i.phy w3 else some w3)
              else some w2)
      by_flags true c d = (_, (refl, g2))
      by_flags false false d = (w2, (refl, g2))
      by_flags false true false = (w3, (refl, g2))
      by_flags false true true =
          subst (λ o. Result (check_link_status i.bmsr_link o w3)) (sym returns)
            (check_link_status-Good i.bmsr_link phy w3 g2)

  pub serve-Good :
      (ef : Events) (i : Inputs) (phy : Phy) (w : Work)
      → i.phy ≡ some phy
      → Quiet i
      → IsByte w.thread.state.driver
      → Good w.thread.state
      → Result (serve fuel ef i w)
  unfolding serve Result
  serve-Good ef i phy w returns y rx g =
      let a = handled ef.intr in
      let b = send_queued-Good i a.0 a.1.1 in
      let c = reclaim_sent-Good b.0 b.1.1 in
      let d = finish-Good ef i phy c.0 returns c.1.1 in
      (
        d.0,
        (
          ap
                (λ o. and_then o (λ w1.
                  and_then (send_queued fuel i w1)
                    (λ w2. and_then (reclaim_sent fuel w2) (λ w3. finish ef i w3))))
                a.1.0
              ∙ ap (λ o. and_then o (λ w2. and_then (reclaim_sent fuel w2) (λ w3. finish ef i w3)))
                  b.1.0
              ∙ ap (λ o. and_then o (λ w3. finish ef i w3)) c.1.0
              ∙ d.1.0,
          d.1.1,
        ),
      )
    where
      handled : (b : Bool) → Result (if b then handle_intr fuel i w else some w)
      handled true = handle_intr-Good i w y rx g
      handled false = (w, (refl, g))
