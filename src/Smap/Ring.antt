-- ===== src/Smap/Ring.antt =====
-- smap/main.h and xfer.c: the driver's state, and the transmission of the queued packets through the
-- ring of transmit descriptors; `HandleTxIntr` of smap.c, which takes sent packets off the ring.
pub mod Flight
pub mod Transmit
pub mod Reclaim
use ps2eth.Prelude.{
  ℕ, zero, suc, ◌+◌, ◌-◌, ◌*◌, ◌/◌, ◌%◌, ◌^◌, bit_and, Bool, true, false, not, Option, none, some,
  List, [], ◌∷◌, ◌++◌, ◌==◌, ltb, leb, if◌then◌else◌, get_elem?, set,
}
use ps2eth.Net.{u8, u16, u32, not32}
use ps2eth.Smap.Regs.{
  bd_max_entry, tx_base, tx_ready, tx_genfcs, tx_genpad, tx_losscr, tx_edefer, tx_ecoll, tx_lcoll,
  tx_mcoll, tx_scoll, tx_underrun, flags, has,
}
use ps2eth.Smap.Queue.{TxQueue, smap_tx_packet_next, smap_tx_packet_deq}

-- A buffer descriptor, `smap_bd_t`.
pub record Bd : Type 0 where
  pub ctrl_stat : ℕ
  pub length : ℕ
  pub pointer : ℕ

pub record RuntimeStats : Type 0 where
  pub rx_dropped_frame_count : ℕ
  pub rx_error_count : ℕ
  pub rx_frame_overrun_count : ℕ
  pub rx_frame_bad_length_count : ℕ
  pub rx_frame_bad_fcs_count : ℕ
  pub rx_frame_bad_alignment_count : ℕ
  pub tx_dropped_frame_count : ℕ
  pub tx_error_count : ℕ
  pub tx_frame_losscr_count : ℕ
  pub tx_frame_edefer_count : ℕ
  pub tx_frame_collision_count : ℕ
  pub tx_frame_underrun_count : ℕ
  pub rx_alloc_fail : ℕ

-- `struct SmapDriverData`: the fields of the rings, with the descriptors that the device shares.
pub record SmapDriverData : Type 0 where
  pub tx_buffer_space_available : ℕ
  pub num_packets_in_tx : ℕ
  pub tx_bd_index : ℕ
  pub tx_dnv_bd_index : ℕ
  pub rx_bd_index : ℕ
  pub packet_to_send : Option ℕ
  pub stats : RuntimeStats
  pub tx_bd : List Bd
  pub rx_bd : List Bd

-- `(length+3)&~3`
unfoldable pub round4 : ℕ → ℕ
round4 length = bit_and (length + 3) (not32 3)

-- The number of bytes that DMA moves; `dma` tells whether `dev9DmaTransfer` succeeds.
unfoldable pub smap_dma_transfer : (dma : ℕ → Bool) → ℕ → ℕ
smap_dma_transfer dma size =
    let num_blocks = size / 2 ^ 6 in
    if ltb 0 num_blocks then (if dma num_blocks then num_blocks * 2 ^ 6 else 0) else 0

-- The offsets of the words that the program itself writes to the FIFO, from offset `i` on.
unfoldable pub fifo_words : ℕ → ℕ → ℕ → List ℕ
fifo_words zero i length = []
fifo_words (suc n) i length =
    let rest = fifo_words n (i + 4) length in if ltb i length then i ∷ rest else []

-- `CopyToFIFO`: the bytes that DMA moves, and the offsets of the words after them.
unfoldable pub copy_to_fifo : (dma : ℕ → Bool) → ℕ → ℕ × List ℕ
copy_to_fifo dma length =
    let result = smap_dma_transfer dma length in (result, fifo_words length result length)

-- The variables of the loop of `HandleTxReqs`: its result, the payloads and lengths given to
-- `CopyToFIFO`, and the packets freed so far.
pub record Pass : Type 0 where
  pub driver : SmapDriverData
  pub queue : TxQueue
  pub result : ℕ
  pub copied : List (Option ℕ × ℕ)
  pub freed : List ℕ

pub data Step : Type 0 where
  stop again : Pass → Step

-- The descriptor of a frame of `length` bytes; `wr` is what TXFIFO_WR_PTR reads.
unfoldable pub frame_bd : (wr : ℕ) → ℕ → Bd
unfolding flags
frame_bd wr length = record {
  ctrl_stat = flags (tx_ready ∷ tx_genfcs ∷ tx_genpad ∷ []);
  length = u16 length;
  pointer = u16 (wr + tx_base);
}

unfoldable pub put_frame : (wr : ℕ) → ℕ → SmapDriverData → SmapDriverData
put_frame wr length s = record s {
  tx_bd = set s.tx_bd (s.tx_bd_index % bd_max_entry) (frame_bd wr length);
  tx_bd_index = u8 (s.tx_bd_index + 1);
  num_packets_in_tx = u8 (s.num_packets_in_tx + 1);
  tx_buffer_space_available = s.tx_buffer_space_available - round4 length;
}

-- `packetToSend = NULL; SMapTxPacketDeQ();`
unfoldable pub retire : Pass → Pass
retire p =
    let d = smap_tx_packet_deq p.queue in
    record p {
      driver = record (p.driver) { packet_to_send = none };
      queue = d.0;
      freed = p.freed ++ elim d.1 [ none ↦ [] | some r ↦ r ∷ [] ];
    }

-- `packetToSend = data;`
unfoldable pub hold : Option ℕ → Pass → Pass
hold pkt p = record p { driver = record (p.driver) { packet_to_send = pkt } }

-- The packet's data is copied to the FIFO, and it takes a descriptor.
unfoldable pub load : (wr : ℕ → ℕ) → ℕ → Pass → Pass
load wr length p = record p {
  driver = put_frame (wr p.result) length p.driver;
  result = p.result + 1;
  copied = p.copied ++ ((p.driver.packet_to_send, length) ∷ []);
}

-- The body of the loop for a packet of `length` bytes.
unfoldable pub transmit : (wr : ℕ → ℕ) → ℕ → Pass → Step
transmit wr length p =
    if ltb p.driver.num_packets_in_tx bd_max_entry
    then (if ltb 0 length
        then (if leb (round4 length) p.driver.tx_buffer_space_available
            then again (retire (load wr length p))
            else stop p)
        else again (retire p))
    else stop p

unfoldable pub tx_step : (wr : ℕ → ℕ) → Pass → Step
tx_step wr p =
    let n = smap_tx_packet_next p.queue in
    if ltb n.0 1 then stop p else transmit wr n.0 (hold n.1 p)

-- The loop, with fuel: `none` where the fuel ends.
unfoldable pub tx_loop : (wr : ℕ → ℕ) → ℕ → Pass → Option Pass
tx_loop wr zero p = none
tx_loop wr (suc n) p = elim (tx_step wr p) [ stop p' ↦ some p' | again p' ↦ tx_loop wr n p' ]

-- `HandleTxReqs`; `wr` is what TXFIFO_WR_PTR reads when the given number of frames is written.
unfoldable pub handle_tx_reqs : (wr : ℕ → ℕ) → ℕ → SmapDriverData → TxQueue → Option Pass
handle_tx_reqs wr fuel s q =
    tx_loop wr fuel (record { driver = s; queue = q; result = 0; copied = []; freed = [] })

-- `for(i=0; i < 16; i++) if((ctrl_stat>>i) & 1) count++;` on a 32-bit count.
unfoldable pub count_bits : ℕ → ℕ → ℕ → ℕ → ℕ
count_bits zero i ctrl_stat count = count
count_bits (suc n) i ctrl_stat count =
    count_bits n (i + 1) ctrl_stat (if has (ctrl_stat / 2 ^ i) 1 then u32 (count + 1) else count)

-- `if(c) count++;` on a 16-bit count.
abbrev pub count_if : Bool → ℕ → ℕ
count_if c count = if c then u16 (count + 1) else count

unfoldable pub tx_errors : ℕ → RuntimeStats → RuntimeStats
unfolding flags
tx_errors ctrl_stat r =
    if has ctrl_stat (flags (tx_underrun ∷ tx_lcoll ∷ tx_ecoll ∷ tx_edefer ∷ tx_losscr ∷ []))
    then record r {
      tx_error_count = count_bits 16 0 ctrl_stat r.tx_error_count;
      tx_dropped_frame_count = u32 (r.tx_dropped_frame_count + 1);
      tx_frame_losscr_count = count_if (has ctrl_stat tx_losscr) r.tx_frame_losscr_count;
      tx_frame_edefer_count = count_if (has ctrl_stat tx_edefer) r.tx_frame_edefer_count;
      tx_frame_collision_count =
          count_if (has ctrl_stat (flags (tx_scoll ∷ tx_mcoll ∷ tx_lcoll ∷ tx_ecoll ∷ [])))
            r.tx_frame_collision_count;
      tx_frame_underrun_count = count_if (has ctrl_stat tx_underrun) r.tx_frame_underrun_count;
    }
    else r

-- The rest of the loop's body in `HandleTxIntr`, where `freed` has the length of the frame.
unfoldable pub reclaim : Bd → Bd → SmapDriverData → SmapDriverData
reclaim bd freed s = record s {
  stats = tx_errors bd.ctrl_stat s.stats;
  tx_buffer_space_available = u32 (s.tx_buffer_space_available + round4 freed.length);
  tx_dnv_bd_index = u8 (s.tx_dnv_bd_index + 1);
  num_packets_in_tx = s.num_packets_in_tx - 1;
}

unfoldable pub no_bd : Bd
no_bd = record { ctrl_stat = 0; length = 0; pointer = 0 }

unfoldable pub bd_at : List Bd → ℕ → Bd
unfolding no_bd
bd_at bds i = elim (get_elem? bds i) [ none ↦ no_bd | some bd ↦ bd ]

-- The loop of `HandleTxIntr`, with fuel, and its result.
unfoldable pub intr_loop : ℕ → ℕ → SmapDriverData → Option (ℕ × SmapDriverData)
intr_loop zero result s = none
intr_loop (suc n) result s =
    let bd = bd_at s.tx_bd (s.tx_dnv_bd_index % bd_max_entry) in
    let freed = bd_at s.tx_bd (bit_and s.tx_dnv_bd_index (bd_max_entry - 1)) in
    let rest = intr_loop n (result + 1) (reclaim bd freed s) in
    if ltb 0 s.num_packets_in_tx
    then (if not (has bd.ctrl_stat tx_ready) then rest else some (result, s))
    else some (result, s)

unfoldable pub handle_tx_intr : ℕ → SmapDriverData → Option (ℕ × SmapDriverData)
handle_tx_intr fuel s = intr_loop fuel 0 s
