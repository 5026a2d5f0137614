-- ===== src/Smap/Thread.antt =====
-- smap/smap.c, `IntrHandlerThread`: one round of its loop, from the event flags that it wakes up with
-- to the next wait, with `CheckLinkStatus`. The loops that it calls take the same fuel.
pub mod Keeps
pub mod Round
pub mod Serves
mod Tests
use ps2eth.Prelude.{
  ℕ, ◌+◌, ◌-◌, Bool, true, false, not, ◌&&◌, ◌||◌, Option, none, some, List, [], ◌∷◌, ◌++◌, ◌==◌,
  ltb, leb, if◌then◌else◌,
}
use ps2eth.Net.{u16}
use ps2eth.Smap.Ring.{Bd, SmapDriverData, Pass, handle_tx_reqs, handle_tx_intr}
use ps2eth.Smap.Receive.{RxPass, handle_rx_intr}
use ps2eth.Smap.System.{State}

-- The fields of `SmapDriverData` that the thread decides on, with its local `counter`. Below 0 the
-- source's counter stays below 0.
pub record Thread : Type 0 where
  pub state : State
  pub smap_is_initialized : Bool
  pub smap_driver_started : Bool
  pub net_dev_stop_flag : Bool
  pub enable_link_check_timer : Bool
  pub link_status : Bool
  pub counter : ℕ

-- The bits of `EFBits`.
pub record Events : Type 0 where
  pub start : Bool
  pub stop : Bool
  pub intr : Bool
  pub xmit : Bool
  pub link_check : Bool

-- The outcome of `InitPHY`: whether it returns 0, and the two fields when it does.
pub record Phy : Type 0 where
  pub ok : Bool
  pub link_status : Bool
  pub net_dev_stop_flag : Bool

-- What the device and the stack answer in the round; the first four are the bits of `IntrReg`.
-- `device` is what the device makes of the receive descriptors, and `phy` the outcome of `InitPHY` if
-- it is called: `none` if it does not return.
pub record Inputs : Type 0 where
  pub emac3 : Bool
  pub rxend : Bool
  pub rxdnv : Bool
  pub txdnv : Bool
  pub device : ℕ → List Bd → List Bd
  pub frame_cnt : ℕ → ℕ
  pub alloc : ℕ → ℕ → Bool
  pub wr : ℕ → ℕ
  pub bmsr_link : Bool
  pub phy : Option Phy

-- The calls and register writes of the round.
pub data Call : Type 0 where
  intr_disable intr_enable txdnv_enable : Call
  mac_off mac_on delay set_alarm : Call
  link_up link_down : Call
  clear_emac3 clear_rxend clear_rxdnv clear_txdnv : Call

pub record Work : Type 0 where
  pub thread : Thread
  pub calls : List Call
  pub reset_counter : Bool
  pub xmit : Bool

abbrev pub say : List Call → Work → Work
say cs w = record w { calls = w.calls ++ cs }

abbrev pub with_driver : SmapDriverData → Work → Work
with_driver s w = record w {
  thread = record (w.thread) { state = record (w.thread.state) { driver = s } };
}

abbrev pub and_then : Option Work → (Work → Option Work) → Option Work
and_then none f = none
and_then (some w) f = f w

-- `if(EFBits&SMAP_EVENT_STOP) ...`
unfoldable pub handle_stop : Events → Work → Work
handle_stop ef w =
    if ef.stop && w.thread.smap_is_initialized
    then say (intr_disable ∷ mac_off ∷ link_down ∷ []) (record w {
      thread = record (w.thread) {
        net_dev_stop_flag = false;
        link_status = false;
        smap_is_initialized = false;
        smap_driver_started = false;
      };
    })
    else w

-- How the handling of SMAP_EVENT_START ends: the loop is left, the round is over, or it goes on.
pub data Started : Type 0 where
  broken : Started
  over going : Work → Started

unfoldable pub initialized : Work → Work
initialized w =
    let w' =
      say (mac_on ∷ delay ∷ link_up ∷ [])
        (record w { thread = record (w.thread) { smap_is_initialized = true } }) in
    if not w.thread.enable_link_check_timer
    then say (set_alarm ∷ [])
        (record w' { thread = record (w'.thread) { enable_link_check_timer = true } })
    else w'

-- The work that a start has done when `InitPHY` returns.
abbrev pub phy_set_up : Phy → Work → Work
phy_set_up phy w = say (intr_enable ∷ []) (record w {
  thread = record (w.thread) {
    smap_driver_started = true;
    link_status = phy.link_status;
    net_dev_stop_flag = phy.net_dev_stop_flag;
  };
})

abbrev pub stop_cleared : Work → Work
stop_cleared w = record w { thread = record (w.thread) { net_dev_stop_flag = false } }

unfoldable pub start_driver : Phy → Work → Started
start_driver phy w =
    if not phy.ok
    then broken
    else if phy.net_dev_stop_flag
    then over (stop_cleared (phy_set_up phy w))
    else going (initialized (phy_set_up phy w))

-- `if(EFBits&SMAP_EVENT_START) ...`
unfoldable pub handle_start : Events → Phy → Work → Started
handle_start ef phy w =
    if ef.start && not w.thread.smap_is_initialized then start_driver phy w else going w

abbrev pub after_rx : RxPass → Work → Work
after_rx p w = record (with_driver p.driver w) { reset_counter = not (p.received == 0) }

abbrev pub after_tx : Pass → Work → Work
after_tx p w = record w {
  thread = record (w.thread) { state = record { driver = p.driver; queue = p.queue } };
}

unfoldable pub handle_rxend : ℕ → Inputs → Work → Option Work
handle_rxend fuel i w =
    let w' = say (clear_rxend ∷ []) w in
    if i.rxend
    then elim (handle_rx_intr i.device i.frame_cnt i.alloc fuel w.thread.state.driver) [
      | none ↦ none
      | some p ↦ some (after_rx p w')
    ]
    else some w

unfoldable pub handle_rxdnv : Inputs → Work → Work
handle_rxdnv i w =
    let s = w.thread.state.driver in
    if i.rxdnv
    then say (clear_rxdnv ∷ []) (
        with_driver
          (record s {
            stats = record (s.stats) {
              rx_frame_overrun_count = u16 (s.stats.rx_frame_overrun_count + 1);
            };
          })
          w)
    else w

-- A call of `HandleTxIntr`.
unfoldable pub reclaim_sent : ℕ → Work → Option Work
reclaim_sent fuel w = elim (handle_tx_intr fuel w.thread.state.driver) [
  | none ↦ none
  | some (n, s) ↦ some (with_driver s w)
]

unfoldable pub handle_txdnv : ℕ → Inputs → Work → Option Work
handle_txdnv fuel i w =
    if i.txdnv
    then reclaim_sent fuel (record (say (clear_txdnv ∷ []) w) { xmit = true })
    else some w

-- The interrupts, in the order of the source.
unfoldable pub handle_intr : ℕ → Inputs → Work → Option Work
handle_intr fuel i w =
    let w1 = if i.emac3 then say (clear_emac3 ∷ []) w else w in
    and_then (handle_rxend fuel i w1) (λ w2. handle_txdnv fuel i (handle_rxdnv i w2))

unfoldable pub send_queued : ℕ → Inputs → Work → Option Work
send_queued fuel i w =
    if w.xmit
    then elim (handle_tx_reqs i.wr fuel w.thread.state.driver w.thread.state.queue) [
      | none ↦ none
      | some p ↦ some (after_tx p w)
    ]
    else some w

abbrev pub link_checked : Phy → Work → Work
link_checked phy w =
    say (if phy.link_status then link_down ∷ link_up ∷ [] else link_down ∷ []) (record w {
      thread = record (w.thread) {
        link_status = phy.link_status;
        net_dev_stop_flag = phy.net_dev_stop_flag;
      };
    })

-- `CheckLinkStatus`
unfoldable pub check_link_status : (bmsr_link : Bool) → Option Phy → Work → Option Work
check_link_status true phy w = some w
check_link_status false none w = none
check_link_status false (some phy) w = some (link_checked phy w)

-- The end of the round: interrupts are enabled again, and the link is checked if there was no traffic.
unfoldable pub finish : Events → Inputs → Work → Option Work
finish ef i w =
    let w1 = say (intr_enable ∷ []) w in
    let w2 =
      if ltb 0 w.thread.state.driver.num_packets_in_tx then say (txdnv_enable ∷ []) w1 else w1 in
    let w3 = record w2 { thread = record (w2.thread) { counter = w2.thread.counter - 1 } } in
    if w.reset_counter
    then some (record w2 { thread = record (w2.thread) { counter = 3 } })
    else if ef.link_check
    then (if leb w3.thread.counter 0 then check_link_status i.bmsr_link i.phy w3 else some w3)
    else some w2

unfoldable pub serve : ℕ → Events → Inputs → Work → Option Work
serve fuel ef i w =
    let handled = if ef.intr then handle_intr fuel i w else some w in
    and_then handled (λ w1.
      and_then (send_queued fuel i w1)
        (λ w2. and_then (reclaim_sent fuel w2) (λ w3. finish ef i w3)))

-- The round; `left` where the loop is left, and `stuck` where a loop does not end: the fuel is used up,
-- or `InitPHY` does not return.
pub data Ended : Type 0 where
  left : Ended
  stuck : Ended
  waits : Work → Ended

abbrev pub served : Option Work → Ended
served none = stuck
served (some w) = waits w

unfoldable pub after_start : ℕ → Events → Inputs → Started → Ended
after_start fuel ef i broken = left
after_start fuel ef i (over w) = waits w
after_start fuel ef i (going w) =
    if w.thread.smap_is_initialized then served (serve fuel ef i w) else waits w

-- The start, if there is one, and the rest of the round.
unfoldable pub start_and_serve : ℕ → Events → Inputs → Option Phy → Work → Ended
start_and_serve fuel ef i (some phy) w = after_start fuel ef i (handle_start ef phy w)
start_and_serve fuel ef i none w =
    if ef.start && not w.thread.smap_is_initialized then stuck else after_start fuel ef i (going w)

unfoldable pub round : ℕ → Events → Inputs → Thread → Ended
round fuel ef i t =
    let w : Work = record { thread = t; calls = []; reset_counter = false; xmit = ef.xmit } in
    start_and_serve fuel ef i i.phy (handle_stop ef w)
