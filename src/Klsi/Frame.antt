-- ===== src/Klsi/Frame.antt =====
-- ps2klsi/ps2eth.c, the frames: `low_level_output` to the USB pipe, `low_level_input` from it.
-- A pbuf chain is the list of its payloads, and `len` of a pbuf is the length of its payload. An access
-- outside of one of the two static buffers, which C leaves undefined, has the result `none`.
pub mod Wire
pub mod Input
use ps2eth.Prelude.{
  ℕ, ◌+◌, ◌*◌, ◌/◌, ◌^◌, bit_or, Option, none, some, List, [], ◌∷◌, ◌++◌, leb, get_or, set, length,
  take, drop, if◌then◌else◌,
}
use ps2eth.Net.{u8, u16}

-- `struct pbuf`: the chain, and `tot_len` of its first pbuf.
pub record Pbuf : Type 0 where
  pub chain : List (List ℕ)
  pub tot_len : ℕ

-- The size of `inbuffer` and of `outbuffer`.
abbrev pub buffer_size : ℕ
buffer_size = 1500

-- `bcopy(src, &buf[off], n)`, where `src` has `n` bytes.
unfoldable pub bcopy_to : List ℕ → ℕ → List ℕ → Option (List ℕ)
bcopy_to src off buf =
    if leb (off + length src) (length buf)
    then some (take off buf ++ (src ++ drop (off + length src) buf))
    else none

abbrev pub and_then {ℓ κ} : {A : Type ℓ} {B : Type κ} → Option A → (A → Option B) → Option B
and_then none f = none
and_then (some a) f = f a

-- The loop of `low_level_output` over the chain; `off` is where `bufptr` points.
unfoldable pub output_loop : List (List ℕ) → ℕ → List ℕ → Option (List ℕ)
output_loop [] off buf = some buf
output_loop (q ∷ qs) off buf =
    and_then (bcopy_to q off buf) (λ b. output_loop qs (off + length q) b)

-- The two bytes of the length, which the adapter expects before the frame.
unfoldable pub put_length : ℕ → List ℕ → List ℕ
put_length tot_len buf = set (set buf 0 (u8 tot_len)) 1 (u8 (tot_len / 2 ^ 8))

-- `outbuffer` afterwards, and what `kue_do_transfer` is given to send.
pub record Transfer : Type 0 where
  pub outbuffer : List ℕ
  pub sent : List ℕ

-- `kue_do_transfer(hout, hsemout, outbuffer, len)`
unfoldable pub transfer : ℕ → List ℕ → Option Transfer
transfer len buf =
    if leb len (length buf) then some (record { outbuffer = buf; sent = take len buf }) else none

unfoldable pub low_level_output : Pbuf → List ℕ → Option Transfer
low_level_output p outbuffer =
    and_then (output_loop p.chain 2 outbuffer)
      (λ buf. transfer (p.tot_len + 2) (put_length p.tot_len buf))

-- The loop of `low_level_input` over the pbufs, whose lengths are `lens`; `bufptr` is the rest of the
-- buffer.
unfoldable pub input_loop : List ℕ → List ℕ → Option (List (List ℕ))
input_loop [] bufptr = some []
input_loop (n ∷ lens) bufptr =
    let rest = input_loop lens (drop n bufptr) in
    if leb n (length bufptr) then and_then rest (λ qs. some (take n bufptr ∷ qs)) else none

-- The length that the first two bytes of a transfer give.
unfoldable pub frame_length : List ℕ → ℕ
frame_length buf = u16 (bit_or (u8 (get_or buf 1 0) * 2 ^ 8) (u8 (get_or buf 0 0)))

-- How `low_level_input` ends: NULL, or a chain of pbufs, or an access outside of the buffer.
pub data Received : Type 0 where
  no_pbuf outside : Received
  packet : Pbuf → Received

unfoldable pub filled : ℕ → Option (List (List ℕ)) → Received
filled len none = outside
filled len (some qs) = packet (record { chain = qs; tot_len = len })

-- `alloc len` is what `pbuf_alloc(PBUF_LINK, len, PBUF_POOL)` returns: the lengths of the pbufs. The
-- source's argument `len` is overwritten before it is used.
unfoldable pub low_level_input : (alloc : ℕ → Option (List ℕ)) → List ℕ → Received
low_level_input alloc buf = elim (alloc (frame_length buf)) [
  | none ↦ no_pbuf
  | some lens ↦ filled (frame_length buf) (input_loop lens (drop 2 buf))
]
