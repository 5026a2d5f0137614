-- ===== src/Smap/Start/Agrees.antt =====
-- smap/smap.c: the two ways to start the adapter.
use ps2eth.Prelude.{◌≡◌, Bool, true, false, Option, none, some, List, [], arith}
use ps2eth.Smap.Thread.{
  Thread, Events, Phy, Call, Started, broken, over, going, start_driver, initialized, handle_start,
}
use ps2eth.Smap.Start.{smap_init_start}

-- The fields and the calls at the end of the handling of SMAP_EVENT_START.
pub outcome : Started → Option (Thread × List Call)
outcome broken = none
outcome (over w) = some (w.thread, w.calls)
outcome (going w) = some (w.thread, w.calls)

-- Where the PHY is set up and the adapter is not initialized, SMAPInitStart and the interrupt thread's
-- handling of SMAP_EVENT_START make the same calls in the same order and leave the same fields, save
-- that the thread alone sets SmapDriverStarted.
pub smap_init_start-handle_start :
    (ef : Events) (phy : Phy) (t : Thread) (reset xmit : Bool)
    → ef.start ≡ true
    → phy.ok ≡ true
    → t.smap_is_initialized ≡ false
    → outcome (
        handle_start ef phy (record { thread = t; calls = []; reset_counter = reset; xmit = xmit }))
      ≡ some (
        record ((smap_init_start phy t).0) { smap_driver_started = true },
        (smap_init_start phy t).1,
      )
unfolding outcome handle_start start_driver initialized smap_init_start
smap_init_start-handle_start ef phy t reset xmit s o i = ground (arith, s, o, i)
