-- ===== src/Klsi/Frame/Input.antt =====
-- ps2klsi/ps2eth.c: what `low_level_input` makes of a transfer.
use ps2eth.Prelude.{
  ℕ, ◌+◌, ◌/◌, ◌^◌, ◌≤◌, ◌<◌, ◌≡◌, refl, sym, ◌∙◌, true, Option, none, some, List, [], ◌∷◌, ◌++◌,
  leb, length, take, drop, joined, take-append, length-drop, take-add, arith, Bool-cases, inl, inr,
  bit_or_fields, if◌then◌else◌,
}
use ps2eth.Net.{u8}
use ps2eth.Klsi.Frame.{
  Pbuf, buffer_size, input_loop, frame_length, no_pbuf, outside, packet, filled, low_level_input,
  low_level_output, Transfer,
}
use ps2eth.Klsi.Frame.Wire.{wire, low_level_output-wire}

unfoldable pub total : List ℕ → ℕ
total [] = 0
total (n ∷ ns) = n + total ns

-- The pbufs get consecutive pieces of the buffer, if they fit.
pub pieces : List ℕ → List ℕ → List (List ℕ)
pieces [] buf = []
pieces (n ∷ lens) buf = take n buf ∷ pieces lens (drop n buf)

input_loop-inside :
    (lens buf : List ℕ) → total lens ≤ length buf → input_loop lens buf ≡ some (pieces lens buf)
unfolding input_loop total pieces
input_loop-inside [] buf h = refl
input_loop-inside (n ∷ lens) buf h =
    let fits : leb n (length buf) ≡ true = ground arith in
    let left : total lens ≤ length (drop n buf) = omega (arith, h, length-drop buf n) in
    rw (fits, input_loop-inside lens (drop n buf) left) refl

input_loop-outside : (lens buf : List ℕ) → length buf < total lens → input_loop lens buf ≡ none
unfolding input_loop total
input_loop-outside [] buf h = absurd (omega arith)
input_loop-outside (n ∷ lens) buf h = elim (Bool-cases (leb n (length buf))) [
  | inl fits ↦
      let left : length (drop n buf) < total lens = ground (arith, h, fits, length-drop buf n) in
      rw (fits, input_loop-outside lens (drop n buf) left) refl
  | inr over ↦ rw over refl
]

pub joined-pieces : (lens buf : List ℕ) → joined (pieces lens buf) ≡ take (total lens) buf
unfolding pieces total
joined-pieces [] buf = refl
joined-pieces (n ∷ lens) buf =
    rw (joined-pieces lens (drop n buf)) (sym (take-add buf n (total lens)))

-- What `low_level_input` does with a full buffer, where `pbuf_alloc` gives pbufs of the length that is
-- asked for: with at most 1498 bytes in the first two bytes of the buffer, the chain holds that many
-- bytes of it from the third one on; with more, it reads past the end of `inbuffer`.
pub low_level_input-pieces :
    (alloc : ℕ → Option (List ℕ)) (buf lens : List ℕ)
    → length buf ≡ buffer_size
    → alloc (frame_length buf) ≡ some lens
    → total lens ≡ frame_length buf
    → low_level_input alloc buf ≡ (
        if leb (frame_length buf) 1498
        then packet (record { chain = pieces lens (drop 2 buf); tot_len = frame_length buf })
        else outside)
unfolding low_level_input filled
low_level_input-pieces alloc buf lens size a e = elim (Bool-cases (leb (frame_length buf) 1498)) [
  | inl fits ↦
      let small : total lens ≤ length (drop 2 buf) =
        ground (arith, e, size, fits, length-drop buf 2) in
      rw (low_level_input, a, fits, input_loop-inside lens (drop 2 buf) small) refl
  | inr over ↦
      let big : length (drop 2 buf) < total lens =
        ground (arith, e, size, over, length-drop buf 2) in
      rw (low_level_input, a, over, input_loop-outside lens (drop 2 buf) big) refl
]

pub low_level_input-no_pbuf :
    (alloc : ℕ → Option (List ℕ)) (buf : List ℕ)
    → alloc (frame_length buf) ≡ none
    → low_level_input alloc buf ≡ no_pbuf
unfolding low_level_input
low_level_input-no_pbuf alloc buf e = rw (low_level_input, e) refl

frame_length-wire :
    (p : Pbuf) (rest : List ℕ) → p.tot_len < 2 ^ 16 → frame_length (wire p ++ rest) ≡ p.tot_len
unfolding frame_length wire
frame_length-wire p rest h =
    rw (bit_or_fields 8 (u8 (u8 (p.tot_len / 2 ^ 8))) (u8 (u8 p.tot_len)) (omega arith))
      (omega arith)

-- A frame that one side sends and the other side receives, in a buffer with anything after it, comes
-- out with the bytes that went in, however the two sides divide it into pbufs.
pub low_level_input-low_level_output :
    (alloc : ℕ → Option (List ℕ)) (lens : List ℕ) (p : Pbuf) (outbuffer after : List ℕ)
    → length outbuffer ≡ buffer_size
    → p.tot_len ≡ length (joined p.chain)
    → p.tot_len ≤ 1498
    → alloc p.tot_len ≡ some lens
    → total lens ≡ p.tot_len
    → length (wire p ++ after) ≡ buffer_size
    → (t : Transfer) × (qs : List (List ℕ)) × (low_level_output p outbuffer ≡ some t)
      × (low_level_input alloc (t.sent ++ after)
          ≡ packet (record { chain = qs; tot_len = p.tot_len }))
      × (joined qs ≡ joined p.chain)
unfolding wire
low_level_input-low_level_output alloc lens p outbuffer after size e small a sum full =
    let fits : leb p.tot_len 1498 ≡ true = ground arith in
    let len = frame_length-wire p after (omega arith) in
    let qs = pieces lens (joined p.chain ++ after) in
    let sent = low_level_output-wire p outbuffer size e in
    let got = low_level_input-pieces alloc (wire p ++ after) lens full (rw len a) (rw len sum) in
    (
      record { outbuffer = wire p ++ drop (p.tot_len + 2) outbuffer; sent = wire p },
      qs,
      rw fits at sent,
      rw (len, fits) at got,
      joined-pieces lens (joined p.chain ++ after)
          ∙ take-append (joined p.chain) after (total lens) (omega (arith, e, sum)),
    )
