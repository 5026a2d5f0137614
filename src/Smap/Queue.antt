-- ===== src/Smap/Queue.antt =====
-- smap/main.c, the transmit queue: `TxHead`, `TxTail`, `EnQTxPacket`, `SMapTxPacketNext` and
-- `SMapTxPacketDeQ`. The packets are linked through the field `next` of `struct pbuf`, from the oldest,
-- `TxTail`, to the newest, `TxHead`. Each function's accesses are under CpuSuspendIntr.
pub mod Chain
pub mod Fifo
use ps2eth.Prelude.{ℕ, Bool, false, Option, none, some, ◌==◌, if◌then◌else◌}

-- `struct pbuf`: the fields that the driver reads and writes; a pointer is `none` for NULL.
pub record PBuf : Type 0 where
  pub next : Option ℕ
  pub payload : ℕ
  pub tot_len : ℕ
  pub len : ℕ

-- The static variables, and the store of packets by address.
pub record TxQueue : Type 0 where
  pub tx_head : Option ℕ
  pub tx_tail : Option ℕ
  pub heap : ℕ → PBuf

-- `p->next = n;`
abbrev pub set_next : (ℕ → PBuf) → ℕ → Option ℕ → ℕ → PBuf
set_next heap p n q = if p == q then record (heap q) { next = n } else heap q

-- `p == r` for a pointer `r`.
abbrev pub points : ℕ → Option ℕ → Bool
points p none = false
points p (some r) = p == r

-- `if(TxHead != NULL) TxHead->next = tx;`
abbrev pub link_head : ℕ → TxQueue → ℕ → PBuf
link_head tx q = elim q.tx_head [ none ↦ q.heap | some h ↦ set_next q.heap h (some tx) ]

unfoldable pub en_q_tx_packet : ℕ → TxQueue → TxQueue
en_q_tx_packet tx q = record {
  tx_head = some tx;
  tx_tail = elim q.tx_tail [ none ↦ some tx | some t ↦ some t ];
  heap = set_next (link_head tx q) tx none;
}

-- The length that is returned, and the payload if it is written.
unfoldable pub smap_tx_packet_next : TxQueue → ℕ × Option ℕ
smap_tx_packet_next q = elim q.tx_tail [
  | none ↦ (0, none)
  | some t ↦ ((q.heap t).len, some (q.heap t).payload)
]

-- The queue, and the packet that is freed, if any.
unfoldable pub smap_tx_packet_deq : TxQueue → TxQueue × Option ℕ
smap_tx_packet_deq q = elim q.tx_tail [
  | none ↦ (q, none)
  | some t ↦
      let last = points t q.tx_head in
      (
        record {
          tx_head = if last then none else q.tx_head;
          tx_tail = if last then none else (q.heap t).next;
          heap = set_next q.heap t none;
        },
        some t,
      )
]

-- `TxHead = NULL; TxTail = NULL;` of `SMapIFInit`.
unfoldable pub clear_queue : TxQueue → TxQueue
clear_queue q = record q { tx_head = none; tx_tail = none }
