-- ===== src/Packet/Loops.antt =====
-- The loops over the bytes of the addresses as copies, and the macros of the length fields.
use ps2eth.Prelude.{
  ℕ, zero, suc, ◌+◌, ◌*◌, ◌/◌, ◌%◌, ◌^◌, ◌≤◌, ◌<◌, ◌≡◌, refl, ◌∙◌, arith, bit_and, bit_or,
  bit_and_low, bit_or_fields, bit_or_comm, [], ◌∷◌, get_or, length, length-set,
}
use ps2eth.Net.{htons, ntohs, EthAddr, EthHdr, EtharpHdr, copy_loop}
use ps2eth.Net.Copy.{copy_loop-set_src, get_or-set_self}
use ps2eth.Net.Swap.{ntohs-htons}
use ps2eth.Packet.{
  arph_hwlen, arph_protolen, arph_hwlen_set, arph_protolen_set, reply_round, reply_loop,
  request_round1, request_loop1, request_round2, request_loop2, output_round, output_loop,
  ethbroadcast,
}

-- ARPH_HWLEN_SET keeps the protocol length, and ARPH_PROTOLEN_SET the hardware length.
pub lengths_set :
    (h : EtharpHdr) (hwlen protolen : ℕ)
    → hwlen < 256
    → protolen < 256
    → (arph_protolen_set (arph_hwlen_set h hwlen) protolen).hwlen_protolen
      ≡ htons (hwlen * 2 ^ 8 + protolen)
unfolding arph_hwlen arph_protolen arph_hwlen_set arph_protolen_set
lengths_set h hwlen protolen hh hp =
    let low = bit_and (ntohs h.hwlen_protolen) 0xff in
    let low_lt : low < 256 = omega (arith, bit_and_low 8 (ntohs h.hwlen_protolen)) in
    let e1 : bit_or low (hwlen * 2 ^ 8) ≡ hwlen * 2 ^ 8 + low =
      bit_or_comm low (hwlen * 2 ^ 8) ∙ bit_or_fields 8 hwlen low low_lt in
    let e2 : (hwlen * 2 ^ 8 + low) % 2 ^ 16 ≡ hwlen * 2 ^ 8 + low = omega arith in
    let e3 : ntohs (htons (hwlen * 2 ^ 8 + low)) ≡ hwlen * 2 ^ 8 + low =
      ntohs-htons _ (omega arith) in
    let e4 : (hwlen * 2 ^ 8 + low) / 2 ^ 8 ≡ hwlen = omega arith in
    let e5 : bit_or protolen (hwlen * 2 ^ 8) ≡ hwlen * 2 ^ 8 + protolen =
      bit_or_comm protolen (hwlen * 2 ^ 8) ∙ bit_or_fields 8 hwlen protolen hp in
    let e6 : (hwlen * 2 ^ 8 + protolen) % 2 ^ 16 ≡ hwlen * 2 ^ 8 + protolen = omega arith in
    rw (e1, e2, e3, e4, e5, e6)

-- The reply's loop copies four addresses, reading the sender's before it overwrites it.
pub reply_loop-copies :
    (n i : ℕ) (ethaddr : EthAddr) (h : EtharpHdr)
    → i + n ≤ length h.dhwaddr
    → reply_loop n i ethaddr h ≡ record h {
      dhwaddr = copy_loop n i h.shwaddr h.dhwaddr;
      shwaddr = copy_loop n i ethaddr h.shwaddr;
      ethhdr = record (h.ethhdr) {
        dest = copy_loop n i h.shwaddr h.ethhdr.dest;
        src = copy_loop n i ethaddr h.ethhdr.src;
      };
    }
unfolding reply_loop reply_round copy_loop
reply_loop-copies zero i ethaddr h fits = refl
reply_loop-copies (suc n) i ethaddr h fits =
    reply_loop-copies n (i + 1) ethaddr (reply_round ethaddr i h)
      (omega (arith, length-set h.dhwaddr i (get_or h.shwaddr i 0)))
    ∙ rw (
      copy_loop-set_src n (i + 1) i (get_or ethaddr i 0) h.shwaddr _ (omega arith),
      copy_loop-set_src n (i + 1) i (get_or ethaddr i 0) h.shwaddr _ (omega arith),
      get_or-set_self h.dhwaddr i (get_or h.shwaddr i 0) 0 (omega arith),
    )

abbrev pub zero_addr : EthAddr
zero_addr = 0 ∷ 0 ∷ 0 ∷ 0 ∷ 0 ∷ 0 ∷ []

get_or-zero_addr : (j : ℕ) → get_or zero_addr j 0 ≡ 0
get_or-zero_addr zero = refl
get_or-zero_addr (suc zero) = refl
get_or-zero_addr (suc (suc zero)) = refl
get_or-zero_addr (suc (suc (suc zero))) = refl
get_or-zero_addr (suc (suc (suc (suc zero)))) = refl
get_or-zero_addr (suc (suc (suc (suc (suc zero))))) = refl
get_or-zero_addr (suc (suc (suc (suc (suc (suc j)))))) = refl

get_or-ethbroadcast : (j : ℕ) → j < 6 → get_or ethbroadcast j 0 ≡ 0xff
get_or-ethbroadcast zero h = refl
get_or-ethbroadcast (suc zero) h = refl
get_or-ethbroadcast (suc (suc zero)) h = refl
get_or-ethbroadcast (suc (suc (suc zero))) h = refl
get_or-ethbroadcast (suc (suc (suc (suc zero)))) h = refl
get_or-ethbroadcast (suc (suc (suc (suc (suc zero))))) h = refl
get_or-ethbroadcast (suc (suc (suc (suc (suc (suc j)))))) h = absurd (omega arith)

pub request_loop1-copies :
    (n j : ℕ) (srcaddr : EthAddr) (h : EtharpHdr)
    → request_loop1 n j srcaddr h ≡ record h {
      dhwaddr = copy_loop n j zero_addr h.dhwaddr;
      shwaddr = copy_loop n j srcaddr h.shwaddr;
    }
unfolding request_loop1 request_round1 copy_loop
request_loop1-copies zero j srcaddr h = refl
request_loop1-copies (suc n) j srcaddr h =
    request_loop1-copies n (j + 1) srcaddr (request_round1 srcaddr j h) ∙ rw (get_or-zero_addr j)

pub request_loop2-copies :
    (n j : ℕ) (srcaddr : EthAddr) (h : EtharpHdr)
    → j + n ≤ 6
    → request_loop2 n j srcaddr h ≡ record h {
      ethhdr = record (h.ethhdr) {
        dest = copy_loop n j ethbroadcast h.ethhdr.dest;
        src = copy_loop n j srcaddr h.ethhdr.src;
      };
    }
unfolding request_loop2 request_round2 copy_loop
request_loop2-copies zero j srcaddr h fits = refl
request_loop2-copies (suc n) j srcaddr h fits =
    request_loop2-copies n (j + 1) srcaddr (request_round2 srcaddr j h) (omega arith)
    ∙ rw (get_or-ethbroadcast j (omega arith))

pub output_loop-copies :
    (n i : ℕ) (dest srcaddr : EthAddr) (h : EthHdr)
    → output_loop n i dest srcaddr h
      ≡ record h { dest = copy_loop n i dest h.dest; src = copy_loop n i srcaddr h.src }
unfolding output_loop output_round copy_loop
output_loop-copies zero i dest srcaddr h = refl
output_loop-copies (suc n) i dest srcaddr h =
    output_loop-copies n (i + 1) dest srcaddr (output_round dest srcaddr i h)
