-- ===== src/Smap/Xmit.antt =====
-- smap/main.c and smap.c: `SMapLowLevelOutput`, which the TCP/IP stack calls for each packet, and
-- `SMAPXmit` and `ClearPacketQueue` behind it.
pub mod Clear
use ps2eth.Prelude.{
  ℕ, zero, suc, Bool, true, false, not, Option, none, some, List, [], ◌∷◌, ◌++◌, ◌==◌, ltb, ℤ, pos,
  negsuc, if◌then◌else◌,
}
use mathlib.Core.Option
use ps2eth.Smap.Queue.{PBuf, TxQueue, en_q_tx_packet, smap_tx_packet_next, smap_tx_packet_deq}
use ps2eth.Smap.Ring.{SmapDriverData}

-- What a call does besides: `pbuf_ref`, `pbuf_free`, and the event SMAP_EVENT_XMIT.
pub data Effect : Type 0 where
  referenced released : ℕ → Effect
  xmit_event : Effect

abbrev pub released_if : Option ℕ → List Effect
released_if none = []
released_if (some p) = released p ∷ []

-- `while(SMapTxPacketNext(&pkt) > 0) SMapTxPacketDeQ();`, with fuel.
unfoldable pub clear_loop : ℕ → TxQueue → Option (TxQueue × List Effect)
clear_loop zero q = none
clear_loop (suc n) q =
    let d = smap_tx_packet_deq q in
    let rest = clear_loop n d.0 in
    if ltb 0 (smap_tx_packet_next q).0
    then Option.map (λ r. (r.0, released_if d.1 ++ r.1)) rest
    else some (q, [])

pub record Sent : Type 0 where
  pub driver : SmapDriverData
  pub queue : TxQueue
  pub effects : List Effect

-- `ClearPacketQueue`
unfoldable pub clear_packet_queue : ℕ → SmapDriverData → TxQueue → Option Sent
clear_packet_queue fuel s q =
    let s' = record s { packet_to_send = none } in
    elim s.packet_to_send [
      | none ↦ some (record { driver = s'; queue = q; effects = [] })
      | some pkt ↦
          Option.map (λ r. record { driver = s'; queue = r.0; effects = r.1 }) (clear_loop fuel q)
    ]

-- `SMAPXmit`, where `link_status` is `LinkStatus`.
unfoldable pub smap_xmit : ℕ → Bool → SmapDriverData → TxQueue → Option Sent
smap_xmit fuel link_status s q =
    if link_status
    then some (record { driver = s; queue = q; effects = xmit_event ∷ [] })
    else clear_packet_queue fuel s q

abbrev pub err_ok : ℤ
err_ok = pos 0

-- `ERR_MEM` of the stack.
abbrev pub err_mem : ℤ
err_mem = negsuc 0

-- `EnQTxPacket(tx); SMAPXmit();` after the effects so far.
unfoldable pub enqueue_and_send :
    ℕ → Bool → SmapDriverData → TxQueue → ℕ → List Effect → Option (Sent × ℤ)
enqueue_and_send fuel link_status s q tx before =
    Option.map (λ r. (record r { effects = before ++ r.effects }, err_ok))
      (smap_xmit fuel link_status s (en_q_tx_packet tx q))

-- `coalesce` is what `pbuf_coalesce` returns for a packet: the packet itself where it fails.
unfoldable pub smap_low_level_output :
    (coalesce : ℕ → ℕ) → ℕ → Bool → SmapDriverData → TxQueue → ℕ → Option (Sent × ℤ)
smap_low_level_output coalesce fuel link_status s q p =
    if ltb (q.heap p).len (q.heap p).tot_len
    then (if not (coalesce p == p)
        then enqueue_and_send fuel link_status s q (coalesce p) (referenced p ∷ [])
        else some (record { driver = s; queue = q; effects = referenced p ∷ [] }, err_mem))
    else enqueue_and_send fuel link_status s q p (referenced p ∷ [])
