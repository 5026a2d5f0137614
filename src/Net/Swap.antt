-- ===== src/Net/Swap.antt =====
-- Byte order: the swaps of common/lwip/etharp.c as arithmetic on bytes, and that they undo themselves.
use ps2eth.Prelude.{
  ℕ, ◌+◌, ◌*◌, ◌/◌, ◌%◌, ◌^◌, ◌<◌, bit_and, bit_or, ◌≡◌, arith, bit_or_fields, bit_and_low,
  bit_and_window,
}
use ps2eth.Net.{htons, ntohs, htonl, ntohl}

pub htons-eq : (n : ℕ) → n < 2 ^ 16 → htons n ≡ n % 256 * 256 + n / 256
unfolding htons
htons-eq n h =
    rw (bit_and_low 8 n, bit_and_window 8 8 n)
      (omega (arith, bit_or_fields 8 (n % 256) (n / 256 % 256 * 256 / 256) (omega arith)))

pub htons-lt : (n : ℕ) → htons n < 2 ^ 16
unfolding htons
htons-lt n = omega arith

-- Swapping the bytes of a 16-bit value twice gives it back.
pub ntohs-htons : (n : ℕ) → n < 2 ^ 16 → ntohs (htons n) ≡ n
unfolding ntohs
ntohs-htons n h = omega (arith, htons-eq n h, htons-eq (htons n) (htons-lt n))

-- Four bytes joined by `|`, as the sources write a 32-bit value.
pub bit_or_bytes :
    (a b c d : ℕ)
    → b < 256
    → c < 256
    → d < 256
    → bit_or (bit_or (bit_or (a * 2 ^ 24) (b * 2 ^ 16)) (c * 2 ^ 8)) d
      ≡ a * 2 ^ 24 + b * 2 ^ 16 + c * 2 ^ 8 + d
bit_or_bytes a b c d hb hc hd =
    let e1 : bit_or (a * 2 ^ 24) (b * 2 ^ 16) ≡ (a * 2 ^ 8 + b) * 2 ^ 16 =
      omega (arith, bit_or_fields 24 a (b * 2 ^ 16) (omega arith)) in
    let e2 : bit_or ((a * 2 ^ 8 + b) * 2 ^ 16) (c * 2 ^ 8) ≡ ((a * 2 ^ 8 + b) * 2 ^ 8 + c) * 2 ^ 8 =
      omega (arith, bit_or_fields 16 (a * 2 ^ 8 + b) (c * 2 ^ 8) (omega arith)) in
    rw (e1, e2) (omega (arith, bit_or_fields 8 ((a * 2 ^ 8 + b) * 2 ^ 8 + c) d (omega arith)))

-- Byte `0` is the lowest.
abbrev pub byte : ℕ → ℕ → ℕ
byte k n = n / 2 ^ (8 * k) % 256

pub htonl-eq :
    (n : ℕ) → htonl n ≡ byte 0 n * 2 ^ 24 + byte 1 n * 2 ^ 16 + byte 2 n * 2 ^ 8 + byte 3 n
unfolding htonl
htonl-eq n =
    let e0 : bit_and n 0xff * 2 ^ 24 % 2 ^ 32 ≡ byte 0 n * 2 ^ 24 =
      omega (arith, bit_and_low 8 n) in
    let e1 : bit_and n 0xff00 * 2 ^ 8 % 2 ^ 32 ≡ byte 1 n * 2 ^ 16 =
      omega (arith, bit_and_window 8 8 n) in
    let e2 : bit_and n 0xff_0000 / 2 ^ 8 ≡ byte 2 n * 2 ^ 8 =
      omega (arith, bit_and_window 16 8 n) in
    let e3 : bit_and n 0xff00_0000 / 2 ^ 24 ≡ byte 3 n = omega (arith, bit_and_window 24 8 n) in
    rw (e0, e1, e2, e3) (bit_or_bytes _ _ _ _ (omega arith) (omega arith) (omega arith))

-- Swapping the bytes of a 32-bit value twice gives it back.
pub ntohl-htonl : (n : ℕ) → n < 2 ^ 32 → ntohl (htonl n) ≡ n
unfolding ntohl
ntohl-htonl n h = omega (arith, htonl-eq n, htonl-eq (htonl n))
