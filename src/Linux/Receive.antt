-- ===== src/Linux/Receive.antt =====
-- smap-linux/smap.c, `HandleRXInt`: the received frames, from the ring of descriptors to the stack. The device
-- may write a descriptor at any time: what a round reads of the descriptor at an index is an argument, as
-- is what pbuf_alloc returns.
pub mod Handles
mod Tests
use ps2eth.Prelude.{
  ℕ, zero, suc, ◌+◌, ◌-◌, ◌*◌, ◌/◌, ◌%◌, ◌^◌, Bool, true, false, not, ◌&&◌, Option, none, some,
  List, [], ◌∷◌, ◌++◌, leb, set, replicate, if◌then◌else◌,
}
use ps2eth.Net.{u16}
use ps2eth.Smap.Regs.{
  bd_max_entry, rx_empty, rx_overrun, rx_runtfrm, rx_shortevnt, rx_alignerr, rx_badfcs,
  rx_frmtoolong, rx_outrange, rx_inrange, flags, has,
}
use ps2eth.Smap.Ring.{Bd, bd_at}
use ps2eth.Linux.Ring.{bd_next}

abbrev pub rx_bufsize : ℕ
rx_bufsize = 16 * 1024

abbrev pub rx_minsize : ℕ
rx_minsize = 14

abbrev pub rx_maxsize : ℕ
rx_maxsize = 6 + 6 + 2 + 1500 + 4

-- SMAP_BD_RX_PFRM and SMAP_BD_RX_BADFRM, besides those of Smap/Regs.
abbrev pub rx_errmask : ℕ
rx_errmask = flags (
    rx_overrun
    ∷ 2 ^ 8
    ∷ 2 ^ 7
    ∷ rx_runtfrm
    ∷ rx_shortevnt
    ∷ rx_alignerr
    ∷ rx_badfcs
    ∷ rx_frmtoolong
    ∷ rx_outrange
    ∷ rx_inrange
    ∷ [])

-- A frame that is copied from the FIFO and handed to the stack, the write of RXFIFO_FRAME_DEC, and the write
-- of SMAP_BD_RX_EMPTY to the descriptor at an index.
pub data Action : Type 0 where
  input : (ptr length : ℕ) → Action
  frame_dec : Action
  set_empty : (index : ℕ) → Action

-- The receive fields of `SMap`, `iNoError`, and what the handler did.
pub record Rx : Type 0 where
  pub index : ℕ
  pub ptr : ℕ
  pub no_error : Bool
  pub actions : List Action

-- `((pointer-SMAP_RXBUFBASE)%SMAP_RXBUFSIZE)&~3` on 16 bits: below the base the remainder is negative.
unfoldable pub fifo_ptr : ℕ → ℕ
fifo_ptr pointer =
    if leb 0x4000 pointer
    then (pointer - 0x4000) % rx_bufsize / 4 * 4
    else u16 (2 ^ 16 - ((0x4000 - pointer) % rx_bufsize + 3) / 4 * 4)

unfoldable pub is_good : Bd → Bool
is_good b = not (has b.ctrl_stat rx_errmask) && (leb rx_minsize b.length && leb b.length rx_maxsize)

-- The frame of a descriptor that is not empty; `alloc` says whether there is a pbuf for its length.
unfoldable pub take_frame : (alloc : ℕ → Bool) → Bd → Rx → Rx
take_frame alloc b r =
    let p = fifo_ptr b.pointer in
    let lost = record r { no_error = false } in
    if is_good b
    then (if alloc b.length
        then record r { ptr = p; actions = r.actions ++ (input p b.length ∷ []) }
        else lost)
    else lost

unfoldable pub release_bd : Rx → Rx
release_bd r = record r {
  index = bd_next r.index;
  actions = r.actions ++ (frame_dec ∷ set_empty r.index ∷ []);
}

-- The loop, with fuel; `read k i` is what round `k` reads of the descriptor `i`, and `alloc k` is for its
-- pbuf_alloc.
unfoldable pub rx_int_loop : (read : ℕ → ℕ → Bd) → (alloc : ℕ → ℕ → Bool) → ℕ → ℕ → Rx → Option Rx
rx_int_loop read alloc zero k r = none
rx_int_loop read alloc (suc n) k r =
    let b = read k r.index in
    let rest = rx_int_loop read alloc n (k + 1) (release_bd (take_frame (alloc k) b r)) in
    if has b.ctrl_stat rx_empty then some r else rest

unfoldable pub handle_rx_int : (read : ℕ → ℕ → Bd) → (alloc : ℕ → ℕ → Bool) → ℕ → Rx → Option Rx
handle_rx_int read alloc fuel r =
    rx_int_loop read alloc fuel 0 (record r { no_error = true; actions = [] })

-- `RXBDInit`: the descriptors, and the fields.
unfoldable pub rx_bd_init : Rx → List Bd × Rx
rx_bd_init r = (
  replicate bd_max_entry (record { ctrl_stat = rx_empty; length = 0; pointer = 0 }),
  record r { index = 0; ptr = 0 },
)
