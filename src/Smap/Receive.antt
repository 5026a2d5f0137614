-- ===== src/Smap/Receive.antt =====
-- smap/xfer.c, `HandleRxIntr`: the received frames, from the ring of receive descriptors to the stack.
-- The device may refill descriptors between the rounds of the loop.
pub mod Count
pub mod Frames
use ps2eth.Prelude.{
  ℕ, zero, suc, ◌+◌, ◌/◌, ◌%◌, ◌^◌, Bool, true, false, not, Option, none, some, List, [], ◌∷◌, ◌++◌,
  ltb, if◌then◌else◌, set,
}
use ps2eth.Net.{u8, u16, u32}
use ps2eth.Smap.Regs.{
  bd_max_entry, rx_empty, rx_overrun, rx_runtfrm, rx_shortevnt, rx_alignerr, rx_badfcs,
  rx_frmtoolong, rx_outrange, rx_inrange, flags, has,
}
use ps2eth.Smap.Ring.{
  Bd, RuntimeStats, SmapDriverData, round4, count_bits, count_if, bd_at, smap_dma_transfer,
  fifo_words,
}

-- What the handler does to the device and the stack: a write of RXFIFO_RD_PTR that skips a frame, the
-- copy of a frame from a pointer, the call of `SMapLowLevelInput`, and the write of RXFIFO_FRAME_DEC.
pub data RxAction : Type 0 where
  skip : ℕ → RxAction
  copy : (pointer length : ℕ) → RxAction
  input : RxAction
  frame_dec : RxAction

-- `CopyFromFIFO`: the bytes that DMA moves, and the offsets of the words that the program reads.
unfoldable pub copy_from_fifo : (dma : ℕ → Bool) → ℕ → ℕ × List ℕ
copy_from_fifo dma length =
    let result = smap_dma_transfer dma length in
    (result, if ltb result length then fifo_words length result length else [])

pub record RxPass : Type 0 where
  pub driver : SmapDriverData
  pub received : ℕ
  pub actions : List RxAction

abbrev pub rx_bad_length : ℕ
rx_bad_length = flags (rx_inrange ∷ rx_outrange ∷ rx_frmtoolong ∷ rx_shortevnt ∷ rx_runtfrm ∷ [])

abbrev pub rx_bad : ℕ
rx_bad = flags (
    rx_inrange ∷ rx_outrange ∷ rx_frmtoolong ∷ rx_badfcs ∷ rx_alignerr ∷ rx_shortevnt ∷ rx_runtfrm
    ∷ rx_overrun ∷ [])

unfoldable pub rx_errors : ℕ → RuntimeStats → RuntimeStats
rx_errors ctrl_stat r = record r {
  rx_error_count = count_bits 16 0 ctrl_stat r.rx_error_count;
  rx_dropped_frame_count = u32 (r.rx_dropped_frame_count + 1);
  rx_frame_overrun_count = count_if (has ctrl_stat rx_overrun) r.rx_frame_overrun_count;
  rx_frame_bad_length_count = count_if (has ctrl_stat rx_bad_length) r.rx_frame_bad_length_count;
  rx_frame_bad_fcs_count = count_if (has ctrl_stat rx_badfcs) r.rx_frame_bad_fcs_count;
  rx_frame_bad_alignment_count =
      count_if (has ctrl_stat rx_alignerr) r.rx_frame_bad_alignment_count;
}

abbrev pub skip_frame : Bd → RxAction
skip_frame bd = skip (u16 (bd.pointer + u16 (round4 bd.length)))

-- The frame of a descriptor is counted and skipped, or handed to the stack, if `alloc` says that
-- there is a pbuf of the rounded length.
unfoldable pub take_frame : (alloc : ℕ → Bool) → Bd → RxPass → RxPass
take_frame alloc bd p =
    if has bd.ctrl_stat rx_bad
    then record p {
      driver = record (p.driver) { stats = rx_errors bd.ctrl_stat p.driver.stats };
      actions = p.actions ++ (skip_frame bd ∷ []);
    }
    else if alloc (u16 (round4 bd.length))
    then record p {
      received = p.received + 1;
      actions = p.actions ++ (copy bd.pointer bd.length ∷ (input ∷ []));
    }
    else record p {
      driver = record (p.driver) {
        stats = record (p.driver.stats) { rx_alloc_fail = u16 (p.driver.stats.rx_alloc_fail + 1) };
      };
      actions = p.actions ++ (skip_frame bd ∷ []);
    }

-- The descriptor goes back to the device.
unfoldable pub release_bd : Bd → RxPass → RxPass
release_bd bd p = record p {
  driver = record (p.driver) {
    rx_bd =
        set p.driver.rx_bd (p.driver.rx_bd_index % bd_max_entry)
          (record bd { ctrl_stat = rx_empty });
    rx_bd_index = u8 (p.driver.rx_bd_index + 1);
  };
  actions = p.actions ++ (frame_dec ∷ []);
}

-- What the device has made of the descriptors, which are volatile, before round `k` looks at them.
unfoldable pub refill : (device : ℕ → List Bd → List Bd) → ℕ → RxPass → RxPass
refill device k p = record p { driver = record (p.driver) { rx_bd = device k p.driver.rx_bd } }

-- The loop, with fuel; `frame_cnt k` is what RXFIFO_FRAME_CNT reads in round `k`, and `alloc k` the
-- outcome of the round's `pbuf_alloc`.
unfoldable pub rx_loop :
    (device : ℕ → List Bd → List Bd)
    → (frame_cnt : ℕ → ℕ) → (alloc : ℕ → ℕ → Bool) → ℕ
    → ℕ
    → RxPass
    → Option RxPass
rx_loop device frame_cnt alloc zero k p = none
rx_loop device frame_cnt alloc (suc n) k p =
    let q = refill device k p in
    let bd = bd_at q.driver.rx_bd (q.driver.rx_bd_index % bd_max_entry) in
    let rest =
      rx_loop device frame_cnt alloc n (k + 1) (release_bd bd (take_frame (alloc k) bd q)) in
    if ltb 0 (frame_cnt k)
    then (if not (has bd.ctrl_stat rx_empty) then rest else some q)
    else some q

unfoldable pub handle_rx_intr :
    (device : ℕ → List Bd → List Bd)
    → (frame_cnt : ℕ → ℕ) → (alloc : ℕ → ℕ → Bool) → ℕ
    → SmapDriverData
    → Option RxPass
handle_rx_intr device frame_cnt alloc fuel s =
    rx_loop device frame_cnt alloc fuel 0 (record { driver = s; received = 0; actions = [] })
