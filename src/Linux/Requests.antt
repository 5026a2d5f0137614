-- ===== src/Linux/Requests.antt =====
-- smap-linux/main.c, the queue of requests between the TCP/IP stack and the transmit interrupt:
-- `StoreLast`, `AddToQueue`, `SendRequests`, `QueueHandler` and `Timer`. A pbuf is its address. What
-- `SMap_Send` answers is an argument.
pub mod Fifo
mod Tests
use ps2eth.Prelude.{
  ℕ, zero, suc, ◌+◌, ◌-◌, ◌*◌, ◌%◌, Bool, true, false, Option, none, some, List, [], ◌∷◌, ◌++◌,
  ◌==◌, ltb, leb, ◌&&◌, get_elem?, set, ℤ, pos, negsuc, if◌then◌else◌,
}

abbrev pub max_req_cnt : ℕ
max_req_cnt = 8

-- `SMapStatus`
pub data SmapStatus : Type 0 where
  smap_ok smap_err smap_con smap_tx : SmapStatus

-- The static variables; `send_req` is `iSendReq!=-1`.
pub record Requests : Type 0 where
  pub ap_req_queue : List ℕ
  pub i_req_nr : ℕ
  pub i_req_cnt : ℕ
  pub i_timeout_cnt : ℕ
  pub send_req : Bool

-- `++(pBuf->ref)`, `pbuf_free` and `iSignalSema(iSendReq)`.
pub data Effect : Type 0 where
  referenced freed : ℕ → Effect
  signalled : Effect

pub record Pass : Type 0 where
  pub requests : Requests
  pub effects : List Effect

-- `Ret==SMap_TX`
abbrev pub is_tx : SmapStatus → Bool
is_tx smap_ok = false
is_tx smap_err = false
is_tx smap_con = false
is_tx smap_tx = true

unfoldable pub store_last : ℕ → Requests → Pass
store_last p r = record {
  requests = record r {
    ap_req_queue = set r.ap_req_queue ((r.i_req_nr + r.i_req_cnt) % max_req_cnt) p;
    i_req_cnt = r.i_req_cnt + 1;
  };
  effects = referenced p ∷ [];
}

-- `AddToQueue`, where `send` is what `SMap_Send` answers if it is called.
unfoldable pub add_to_queue : (send : SmapStatus) → ℕ → Requests → Pass × SmapStatus
unfolding store_last
add_to_queue send p r =
    let stored = store_last p r in
    if r.i_req_cnt == 0
    then (if is_tx send
        then (record stored { requests = record (stored.requests) { i_timeout_cnt = 0 } }, smap_ok)
        else (record { requests = r; effects = [] }, send))
    else if ltb r.i_req_cnt max_req_cnt
    then (stored, smap_ok)
    else (record { requests = r; effects = [] }, smap_tx)

-- The first request leaves the queue.
unfoldable pub advance : Requests → Requests
advance r = record r { i_req_nr = (r.i_req_nr + 1) % max_req_cnt; i_req_cnt = r.i_req_cnt - 1 }

-- `pbuf_free(pReq)`, before the effects of the later rounds.
abbrev pub free_first : Option ℕ → Option Pass → Option Pass
free_first none p = none
free_first (some q) none = none
free_first (some q) (some p) = some (record p { effects = freed q ∷ p.effects })

-- The loop of `SendRequests`, with fuel; `send k` is what `SMap_Send` answers for the `k`-th time.
-- `none`: no fuel, or an index outside of the queue.
unfoldable pub send_requests : (send : ℕ → SmapStatus) → ℕ → ℕ → Requests → Option Pass
unfolding advance
send_requests send zero k r = none
send_requests send (suc n) k r =
    let r0 = record r { i_timeout_cnt = 0 } in
    let rest = send_requests send n (k + 1) (advance r0) in
    if ltb 0 r.i_req_cnt
    then (if is_tx (send k)
        then some (record { requests = r0; effects = [] })
        else free_first (get_elem? r.ap_req_queue r.i_req_nr) rest)
    else some (record { requests = r; effects = [] })

-- `iSignalSema(iSendReq); iSendReq=-1;`
unfoldable pub wake_up : Pass → Pass
wake_up p =
    if p.requests.send_req
    then record {
      requests = record (p.requests) { send_req = false };
      effects = p.effects ++ (signalled ∷ []);
    }
    else p

unfoldable pub queue_handler : (send : ℕ → SmapStatus) → ℕ → Requests → Option Pass
queue_handler send fuel r = elim (send_requests send fuel 0 r) [
  | none ↦ none
  | some p ↦ some (wake_up p)
]

abbrev pub timer_interval : ℕ
timer_interval = 100 * 1000

abbrev pub timeout : ℕ
timeout = 300 * 1000

unfoldable pub timer : (send : ℕ → SmapStatus) → ℕ → Requests → Option Pass
timer send fuel r =
    let r' = record r { i_timeout_cnt = r.i_timeout_cnt + timer_interval } in
    let handled = queue_handler send fuel r' in
    if r.i_req_cnt == 0
    then some (record { requests = r; effects = [] })
    else if leb timeout r'.i_timeout_cnt && ltb r'.i_timeout_cnt (timeout + timer_interval)
    then handled
    else some (record { requests = r'; effects = [] })

-- `Send`, in one round of its loop: ERR_OK, ERR_IF or ERR_CONN, or `none` where it waits for room and
-- tries again.
unfoldable pub send_result : SmapStatus → Option ℤ
send_result smap_ok = some (pos 0)
send_result smap_err = some (negsuc 10)
send_result smap_con = some (negsuc 5)
send_result smap_tx = none
