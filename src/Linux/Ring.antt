-- ===== src/Linux/Ring.antt =====
-- smap-linux/smap.c, the transmit side: `ComputeFreeSize`, `SMap_Send` with its copies, `HandleTXInt`
-- and `TXBDInit`. What the adapter's registers read is an argument; the device writes no descriptor
-- during a call.
pub mod Room
pub mod Sends
mod Tests
use ps2eth.Prelude.{
  ℕ, zero, suc, ◌+◌, ◌-◌, ◌*◌, ◌/◌, ◌%◌, ◌^◌, Bool, true, false, not, ◌&&◌, Option, none, some,
  List, [], ◌∷◌, ◌++◌, ◌==◌, ltb, leb, set, length, take, drop, replicate, if◌then◌else◌,
}
use ps2eth.Net.{u8, u16}
use ps2eth.Smap.Regs.{
  bd_max_entry, tx_base, tx_bufsize, tx_ready, tx_genfcs, tx_genpad, tx_losscr, tx_edefer, tx_ecoll,
  tx_lcoll, tx_mcoll, tx_scoll, tx_underrun, flags, has,
}
use ps2eth.Smap.Ring.{Bd, bd_at}
use ps2eth.Linux.Requests.{SmapStatus, smap_ok, smap_err, smap_con, smap_tx}

abbrev pub tx_maxsize : ℕ
tx_maxsize = 6 + 6 + 2 + 1500

-- SMAP_BD_TX_BADFCS, SMAP_BD_TX_BADPKT and SMAP_BD_TX_SQE, besides those of Smap/Regs.
abbrev pub tx_errmask : ℕ
tx_errmask = flags (
    2 ^ 9
    ∷ 2 ^ 8
    ∷ tx_losscr
    ∷ tx_edefer
    ∷ tx_ecoll
    ∷ tx_lcoll
    ∷ tx_mcoll
    ∷ tx_scoll
    ∷ tx_underrun
    ∷ 2 ^ 0
    ∷ [])

-- `SMapCB`
pub record SmapCb : Type 0 where
  pub bd : List Bd
  pub ptr_start : ℕ
  pub ptr_end : ℕ
  pub index_start : ℕ
  pub index_end : ℕ
  pub size : ℕ

-- `SMAP_BD_NEXT(x)`
unfoldable pub bd_next : ℕ → ℕ
bd_next x = if ltb x (bd_max_entry - 1) then x + 1 else 0

unfoldable pub compute_free_size : SmapCb → ℕ
compute_free_size c =
    if ltb c.ptr_end c.ptr_start
    then u16 (c.size + c.ptr_end - c.ptr_start)
    else u16 (c.size - (c.ptr_end - c.ptr_start))

-- `(n+3)&~3`
unfoldable pub round4 : ℕ → ℕ
round4 n = (n + 3) / 4 * 4

-- `CopyToTXBuffer`, onto the buffer `buf`.
unfoldable pub copy_to_tx_buffer : List (List ℕ) → List ℕ → List ℕ
copy_to_tx_buffer [] buf = buf
copy_to_tx_buffer (q ∷ qs) buf = q ++ copy_to_tx_buffer qs (drop (length q) buf)

-- The loop of `IsEMACReady`; `busy k` is what E3_TX_GNP_0 reads for the `k`-th time.
unfoldable pub ready_loop : (busy : ℕ → Bool) → ℕ → ℕ → Bool
ready_loop busy zero k = false
ready_loop busy (suc n) k =
    let rest = ready_loop busy n (k + 1) in if not (busy k) then true else rest

unfoldable pub is_emac_ready : (busy : ℕ → Bool) → Bool
is_emac_ready busy = ready_loop busy 1000 0

-- A packet: the payloads of its pbufs, `tot_len`, whether the first payload is aligned, and what the
-- memory behind the first payload holds.
pub record Packet : Type 0 where
  pub first : List ℕ
  pub more : List (List ℕ)
  pub tot_len : ℕ
  pub aligned : Bool
  pub behind : List ℕ

-- The bytes that `SMap_Send` copies from, for a packet of `iTXLen` bytes in the FIFO.
unfoldable pub source_bytes : Packet → List ℕ → List ℕ
source_bytes p txbuf =
    if (p.tot_len == length p.first) && p.aligned
    then p.first ++ p.behind
    else copy_to_tx_buffer (p.first ∷ p.more) txbuf

-- The status, the ring, and what `CopyToFIFO` wrote: where, and the bytes.
pub record Send : Type 0 where
  pub status : SmapStatus
  pub cb : SmapCb
  pub fifo : Option (ℕ × List ℕ)

abbrev pub refused : SmapStatus → SmapCb → Send
refused status c = record { status = status; cb = c; fifo = none }

unfoldable pub sent_bd : ℕ → SmapCb → Bd → Bd
sent_bd tot_len c bd = record bd {
  ctrl_stat = flags (tx_ready ∷ tx_genfcs ∷ tx_genpad ∷ []);
  length = u16 tot_len;
  pointer = u16 (c.ptr_end + tx_base);
}

-- From the copy into the FIFO on.
unfoldable pub put_packet : Packet → List ℕ → SmapCb → Send
put_packet p txbuf c = record {
  status = smap_ok;
  cb = record c {
    bd = set c.bd c.index_end (sent_bd p.tot_len c (bd_at c.bd c.index_end));
    ptr_end = (c.ptr_end + round4 p.tot_len) % tx_bufsize;
    index_end = bd_next c.index_end;
  };
  fifo = some (c.ptr_end, take (round4 p.tot_len) (source_bytes p txbuf));
}

unfoldable pub smap_send :
    (link_valid : Bool) (busy : ℕ → Bool) (txbuf : List ℕ) → Packet → SmapCb → Send
smap_send link_valid busy txbuf p c =
    if not link_valid
    then refused smap_con c
    else if ltb tx_maxsize p.tot_len
    then refused smap_err c
    else if ltb (compute_free_size c) (round4 p.tot_len)
    then refused smap_tx c
    else if not (is_emac_ready busy)
    then refused smap_err c
    else put_packet p txbuf c

-- One round of `HandleTXInt`: the first frame in flight leaves the ring.
unfoldable pub retire : SmapCb → SmapCb
retire c =
    let b = bd_at c.bd c.index_start in
    record c {
      bd = set c.bd c.index_start (record b { length = 0; pointer = 0; ctrl_stat = 0 });
      ptr_start = (c.ptr_start + round4 b.length) % tx_bufsize;
      index_start = bd_next c.index_start;
    }

-- The loop of `HandleTXInt`, with fuel: the ring, and `iNoError`.
unfoldable pub tx_int_loop : ℕ → Bool → SmapCb → Option (SmapCb × Bool)
tx_int_loop zero no_error c = none
tx_int_loop (suc n) no_error c =
    let b = bd_at c.bd c.index_start in
    let ok = if has b.ctrl_stat tx_errmask then false else no_error in
    let rest = tx_int_loop n ok (retire c) in
    if c.index_start == c.index_end
    then some (record c { ptr_start = c.ptr_end }, no_error)
    else if has b.ctrl_stat tx_ready
    then some (c, ok)
    else rest

unfoldable pub handle_tx_int : ℕ → SmapCb → Option (SmapCb × Bool)
handle_tx_int fuel c = tx_int_loop fuel true c

-- `TXBDInit`, with the size of the buffer that `BaseInit` sets.
unfoldable pub tx_bd_init : SmapCb → SmapCb
tx_bd_init c = record c {
  bd = replicate bd_max_entry (record { ctrl_stat = 0; length = 0; pointer = 0 });
  ptr_start = 0;
  ptr_end = 0;
  index_start = 0;
  index_end = 0;
  size = tx_bufsize;
}
