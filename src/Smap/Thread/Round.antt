-- ===== src/Smap/Thread/Round.antt =====
-- smap/smap.c: a round of `IntrHandlerThread` ends, and keeps the rings and the queue sound.
use ps2eth.Prelude.{
  ℕ, ◌^◌, ◌<◌, ◌≡◌, refl, sym, subst, Bool, true, false, not, ◌&&◌, some, [], arith, if◌then◌else◌,
  length,
}
use ps2eth.Smap.Regs.{bd_max_entry}
use ps2eth.Smap.System.{State}
use ps2eth.Smap.System.Sound.{IsSound}
use ps2eth.Smap.Thread.Serves.{Good, IsByte, Quiet, Result, serve-Good}
use ps2eth.Smap.Thread.{
  Thread, Events, Phy, Inputs, Work, handle_stop, broken, over, going, initialized, handle_start,
  start_driver, phy_set_up, stop_cleared, serve, served, after_start, start_and_serve, Ended, left,
  waits, round,
}

module _ (len payload : ℕ → ℕ) (short : (p : ℕ) → len p < 2 ^ 16) (fuel : ℕ)
    (enough : bd_max_entry < fuel) where
  -- How a round ends: the loop is left only where a start finds that the PHY cannot be set up, and the
  -- state is sound at the next wait.
  pub data Ends (ef : Events) (phy : Phy) : Ended → Type 0 where
    leaves : ef.start ≡ true → phy.ok ≡ false → Ends ef phy left
    sleeps : (w : Work) → IsSound len payload short w.thread.state → Ends ef phy (waits w)

  handle_stop-state : (ef : Events) (w : Work) → (handle_stop ef w).thread.state ≡ w.thread.state
  unfolding handle_stop
  handle_stop-state ef w = ground arith

  going-Ends :
      (ef : Events) (i : Inputs) (phy : Phy) (w : Work)
      → i.phy ≡ some phy
      → Quiet len payload short fuel enough i
      → IsByte len payload short fuel enough w.thread.state.driver
      → Good len payload short fuel enough w.thread.state
      → Ends ef phy (after_start fuel ef i (going w))
  unfolding after_start Result
  going-Ends ef i phy w returns y rx g = by_flag w.thread.smap_is_initialized
    where
      by_flag : (b : Bool) → Ends ef phy (if b then served (serve fuel ef i w) else waits w)
      by_flag false = sleeps w g.sound
      by_flag true =
          let s = serve-Good len payload short fuel enough ef i phy w returns y rx g in
          subst (λ o. Ends ef phy (served o)) (sym s.1.0) (sleeps s.0 s.1.1.sound)

  initialized-state : (w : Work) → (initialized w).thread.state ≡ w.thread.state
  unfolding initialized
  initialized-state w = ground arith

  start_driver-Ends :
      (ef : Events) (i : Inputs) (phy : Phy) (w : Work)
      → i.phy ≡ some phy
      → Quiet len payload short fuel enough i
      → ef.start ≡ true
      → IsByte len payload short fuel enough w.thread.state.driver
      → Good len payload short fuel enough w.thread.state
      → Ends ef phy (after_start fuel ef i (start_driver phy w))
  unfolding start_driver after_start
  start_driver-Ends ef i phy w returns y st rx g = by_phy phy.ok phy.net_dev_stop_flag refl
    where
      set_up : Work
      set_up = phy_set_up phy w

      by_phy :
          (ok stopped : Bool)
          → phy.ok ≡ ok
          → Ends ef phy (
              after_start fuel ef i (
                if not ok
                then broken
                else if stopped
                then over (stop_cleared set_up)
                else going (initialized set_up)))
      by_phy false stopped e = leaves st e
      by_phy true true e = sleeps (stop_cleared set_up) g.sound
      by_phy true false e =
          let same = initialized-state set_up in
          going-Ends ef i phy (initialized set_up) returns y
            (subst (λ (a : State). IsByte len payload short fuel enough a.driver) (sym same) rx)
            (subst (λ (a : State). Good len payload short fuel enough a) (sym same) g)

  handle_start-Ends :
      (ef : Events) (i : Inputs) (phy : Phy) (w : Work)
      → i.phy ≡ some phy
      → Quiet len payload short fuel enough i
      → IsByte len payload short fuel enough w.thread.state.driver
      → Good len payload short fuel enough w.thread.state
      → Ends ef phy (after_start fuel ef i (handle_start ef phy w))
  unfolding handle_start
  handle_start-Ends ef i phy w returns y rx g = by_events ef.start w.thread.smap_is_initialized refl
    where
      by_events :
          (st init : Bool)
          → ef.start ≡ st
          → Ends ef phy
              (after_start fuel ef i (if st && not init then start_driver phy w else going w))
      by_events true false e = start_driver-Ends ef i phy w returns y e rx g
      by_events true true e = going-Ends ef i phy w returns y rx g
      by_events false init e = going-Ends ef i phy w returns y rx g

  -- Where `InitPHY` returns if it is called, and the count of received frames reads 0 in some round of
  -- `HandleRxIntr`: a round of the interrupt thread ends, whatever the events, the interrupts and the
  -- device's descriptors, and the rings and the queue are sound after it. The thread is left only where
  -- a start finds that the PHY cannot be set up. The fuel exceeds the number of queued packets, 64 and
  -- the round in which the count reads 0.
  pub round-Ends :
      (ef : Events) (i : Inputs) (phy : Phy) (last : ℕ) (t : Thread)
      (v : IsSound len payload short t.state)
      → i.phy ≡ some phy
      → i.frame_cnt last ≡ 0
      → last < fuel
      → length v.queued < fuel
      → t.state.driver.rx_bd_index < 2 ^ 8
      → Ends ef phy (round fuel ef i t)
  unfolding round start_and_serve IsByte
  round-Ends ef i phy last t v returns z within few byte =
      let w : Work = record { thread = t; calls = []; reset_counter = false; xmit = ef.xmit } in
      let same = handle_stop-state ef w in
      subst (λ o. Ends ef phy (start_and_serve fuel ef i o (handle_stop ef w))) (sym returns)
        (handle_start-Ends ef i phy (handle_stop ef w) returns
          (record { last = last; none_left = z; within = within })
          (subst (λ (a : State). IsByte len payload short fuel enough a.driver) (sym same) byte)
          (subst (λ (a : State). Good len payload short fuel enough a) (sym same)
            (record { sound = v; few = few })))
