-- ===== src/Klsi/Frame/Wire.antt =====
-- ps2klsi/ps2eth.c: what `low_level_output` sends, and for which frames it stays inside `outbuffer`.
use native.Mathlib.Decide.{dec_le}
use ps2eth.Prelude.{
  append_nil, ℕ, ◌+◌, ◌/◌, ◌^◌, ◌≤◌, ◌<◌, ◌≡◌, refl, sym, true, false, none, some, List, [], ◌∷◌,
  ◌++◌, leb, length, drop, length-append, append_assoc, joined, take-append, drop-append, drop-drop,
  length-drop, arith, Bool-cases, inl, inr, if◌then◌else◌,
}
use ps2eth.Net.{u8}
use ps2eth.Klsi.Frame.{
  Pbuf, buffer_size, bcopy_to, output_loop, put_length, transfer, low_level_output,
}

bcopy_to-inside :
    (q pre post : List ℕ)
    → length q ≤ length post
    → bcopy_to q (length pre) (pre ++ post) ≡ some ((pre ++ q) ++ drop (length q) post)
unfolding bcopy_to
bcopy_to-inside q pre post h =
    let fits : leb (length pre + length q) (length (pre ++ post)) ≡ true =
      ground (arith, length-append pre post) in
    rw
      (
        fits,
        take-append pre post (length pre) refl,
        drop-append pre post (length pre + length q) (length q) refl,
        append_assoc pre q,
      )
      refl

bcopy_to-outside :
    (q pre post : List ℕ) → length post < length q → bcopy_to q (length pre) (pre ++ post) ≡ none
unfolding bcopy_to
bcopy_to-outside q pre post h =
    let over : leb (length pre + length q) (length (pre ++ post)) ≡ false =
      ground (arith, length-append pre post) in
    rw over refl

output_loop-inside :
    (qs : List (List ℕ)) (pre post : List ℕ) (off : ℕ)
    → off ≡ length pre
    → length (joined qs) ≤ length post
    → output_loop qs off (pre ++ post) ≡ some ((pre ++ joined qs) ++ drop (length (joined qs)) post)
unfolding output_loop
output_loop-inside [] pre post off e h = rw (append_nil pre) refl
output_loop-inside (q ∷ qs) pre post off e h =
    let whole = length-append q (joined qs) in
    let left = length-drop post (length q) in
    let end : off + length q ≡ length (pre ++ q) = omega (arith, e, length-append pre q) in
    rw (e, bcopy_to-inside q pre post (omega (arith, h, whole)))
      (rw
        (
          sym e,
          output_loop-inside qs (pre ++ q) (drop (length q) post) (off + length q) end
              (omega (arith, h, whole, left)),
          append_assoc pre q,
          drop-drop post,
          whole,
        )
        refl)

output_loop-outside :
    (qs : List (List ℕ)) (pre post : List ℕ) (off : ℕ)
    → off ≡ length pre
    → length post < length (joined qs)
    → output_loop qs off (pre ++ post) ≡ none
unfolding output_loop
output_loop-outside [] pre post off e h = absurd (omega arith)
output_loop-outside (q ∷ qs) pre post off e h =
    let whole = length-append q (joined qs) in
    let left = length-drop post (length q) in
    let end : off + length q ≡ length (pre ++ q) = omega (arith, e, length-append pre q) in
    elim (dec_le (length q) (length post)) [
      | yes fits ↦
          rw (e, bcopy_to-inside q pre post fits)
            (rw (sym e) (
              output_loop-outside qs (pre ++ q) (drop (length q) post) (off + length q) end
                (omega (arith, h, whole, left, fits))))
      | no over ↦ rw (e, bcopy_to-outside q pre post (omega arith)) refl
    ]

-- A frame as the adapter expects it: two bytes of length, the low one first, and the bytes.
unfoldable pub wire : Pbuf → List ℕ
wire p = u8 p.tot_len ∷ u8 (p.tot_len / 2 ^ 8) ∷ joined p.chain

transfer-frame :
    (p : Pbuf) (rest : List ℕ)
    → p.tot_len ≡ length (joined p.chain)
    → transfer (p.tot_len + 2) (wire p ++ rest)
      ≡ some (record { outbuffer = wire p ++ rest; sent = wire p })
unfolding transfer wire
transfer-frame p rest e =
    let fits : leb (p.tot_len + 2) (length (wire p ++ rest)) ≡ true =
      ground (arith, e, length-append (joined p.chain) rest) in
    rw (fits, take-append (wire p) rest (p.tot_len + 2) (omega arith)) refl

-- What `low_level_output` does: with at most 1498 bytes, it sends their number and the bytes of the
-- chain in order, and the rest of `outbuffer` stays; with more it writes past the end.
pub low_level_output-wire :
    (p : Pbuf) (outbuffer : List ℕ)
    → length outbuffer ≡ buffer_size
    → p.tot_len ≡ length (joined p.chain)
    → low_level_output p outbuffer ≡ (
        if leb p.tot_len 1498
        then some (record { outbuffer = wire p ++ drop (p.tot_len + 2) outbuffer; sent = wire p })
        else none)
unfolding low_level_output put_length transfer wire
low_level_output-wire p [] size e = absurd (omega arith)
low_level_output-wire p (a ∷ []) size e = absurd (omega arith)
low_level_output-wire p (a ∷ b ∷ post) size e = elim (Bool-cases (leb p.tot_len 1498)) [
  | inl fits ↦
      let small : length (joined p.chain) ≤ length post = ground (arith, e, size, fits) in
      rw (fits, output_loop-inside p.chain (a ∷ b ∷ []) post 2 (omega arith) small)
        (rw (drop-append (a ∷ b ∷ []) post (p.tot_len + 2) p.tot_len (omega arith), sym e)
          (transfer-frame p (drop p.tot_len post) e))
  | inr over ↦
      let big : length post < length (joined p.chain) = ground (arith, e, size, over) in
      rw (over, output_loop-outside p.chain (a ∷ b ∷ []) post 2 (omega arith) big) refl
]
