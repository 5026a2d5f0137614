-- ===== src/Klsi/Log/Sums.antt =====
-- ps2klsi/driver.c: `chksum` and the loop that folds it are the Internet checksum of RFC 1071.
use native.Mathlib.Decide.{dec_le}
use ps2eth.Prelude.{
  ℕ, suc, ◌+◌, ◌*◌, ◌/◌, ◌%◌, ◌^◌, ◌≤◌, ◌<◌, ◌≡◌, refl, ◌∙◌, true, false, some, List, [], ◌∷◌,
  arith, ◌==◌, bit_and, bit_and_low, length, All,
}
use ps2eth.Net.{u16, u32, htons}
use ps2eth.Net.Swap.{htons-eq}
use ps2eth.Klsi.Log.{chksum_loop, fold_loop}

-- The sum of the little-endian 16-bit words of the bytes, an odd byte at the end being a word.
unfoldable pub word_sum : List ℕ → ℕ
word_sum [] = 0
word_sum (b ∷ []) = b
word_sum (a ∷ (b ∷ bytes)) = a + b * 256 + word_sum bytes

unfoldable pub AreBytes : List ℕ → Type 0
AreBytes bytes = All (λ b. b < 256) bytes

htons_high : (b : ℕ) → b < 256 → htons (u16 (bit_and b 0xff * 2 ^ 8)) ≡ b
htons_high b h =
    let low : bit_and b 0xff ≡ b = bit_and_low 8 b ∙ omega arith in
    let word : u16 (b * 2 ^ 8) ≡ b * 256 = omega arith in
    rw (low, word) (htons-eq (b * 256) (omega arith) ∙ omega arith)

pub chksum_loop-word_sum :
    (acc : ℕ) (bytes : List ℕ)
    → AreBytes bytes
    → acc + word_sum bytes < 2 ^ 32
    → chksum_loop acc bytes ≡ acc + word_sum bytes
unfolding chksum_loop word_sum AreBytes
chksum_loop-word_sum acc [] a h = omega arith
chksum_loop-word_sum acc (b ∷ []) a h = rw (htons_high b a.0) (omega arith)
chksum_loop-word_sum acc (a ∷ (b ∷ bytes)) v h =
    let next : u32 (acc + (a + b * 2 ^ 8)) ≡ acc + (a + b * 2 ^ 8) = omega (arith, h) in
    rw next
      (chksum_loop-word_sum (acc + (a + b * 2 ^ 8)) bytes v.1.1 (omega (arith, h)) ∙ omega arith)

pub word_sum-bound :
    (bytes : List ℕ) → AreBytes bytes → 2 * word_sum bytes ≤ 65_535 * (length bytes + 1)
unfolding word_sum AreBytes
word_sum-bound [] a = omega arith
word_sum-bound (b ∷ []) a = omega (arith, a.0)
word_sum-bound (a ∷ (b ∷ bytes)) v = omega (arith, v.0, v.1.0, word_sum-bound bytes v.1.1)

-- What a fold of the sum `n` must be: the 16-bit number with the same remainder by 65535, that is 0 only
-- for 0.
pub record Folded (n r : ℕ) : Type 0 where
  pub small : r < 2 ^ 16
  pub same : r % 65_535 ≡ n % 65_535
  pub zero_only : r ≡ 0 → n ≡ 0

fold_once : (n : ℕ) → n < 2 ^ 32 → u32 (bit_and n 0xffff + n / 2 ^ 16) ≡ n % 2 ^ 16 + n / 2 ^ 16
fold_once n h = rw (bit_and_low 16 n) (omega arith)

fold_small : (k n : ℕ) → n < 2 ^ 16 → fold_loop (suc k) n ≡ some n
unfolding fold_loop
fold_small k n h = let b : (n / 2 ^ 16 == 0) ≡ true = ground (arith, h) in rw (fold_loop, b) refl

fold_large :
    (k n : ℕ)
    → 2 ^ 16 ≤ n
    → n < 2 ^ 32
    → fold_loop (suc k) n ≡ fold_loop k (n % 2 ^ 16 + n / 2 ^ 16)
unfolding fold_loop
fold_large k n low high =
    let b : (n / 2 ^ 16 == 0) ≡ false = ground (arith, low) in
    rw (fold_loop, b, fold_once n high) refl

Folded-once : (n r : ℕ) → 2 ^ 16 ≤ n → Folded (n % 2 ^ 16 + n / 2 ^ 16) r → Folded n r
Folded-once n r low f = record {
  small = f.small;
  same = omega (arith, f.same);
  zero_only = λ e. absurd (omega (arith, f.zero_only e, low));
}

Folded-self : (n : ℕ) → n < 2 ^ 16 → Folded n n
Folded-self n h = record { small = h; same = refl; zero_only = λ e. e }

Ends : ℕ → ℕ → Type 0
Ends fuel n = (r : ℕ) × (fold_loop fuel n ≡ some r) × Folded n r

-- One round, if one is needed.
Ends-round :
    (k n : ℕ) → n < 2 ^ 32 → (2 ^ 16 ≤ n → Ends k (n % 2 ^ 16 + n / 2 ^ 16)) → Ends (suc k) n
unfolding Ends
Ends-round k n h next = elim (dec_le (2 ^ 16) n) [
  | yes low ↦ let t = next low in (t.0, fold_large k n low h ∙ t.1, Folded-once n t.0 low t.2)
  | no high ↦
      let small : n < 2 ^ 16 = omega (arith, high) in (n, fold_small k n small, Folded-self n small)
]

-- The loop that folds a 32-bit sum ends within two rounds, with the 16-bit number that has the same
-- remainder by 65535 and is 0 only for 0.
pub fold_loop-Folded :
    (n fuel : ℕ) → n < 2 ^ 32 → (r : ℕ) × (fold_loop (suc (suc (suc fuel))) n ≡ some r) × Folded n r
unfolding Ends
fold_loop-Folded n fuel h =
    let n1 = n % 2 ^ 16 + n / 2 ^ 16 in
    let n2 = n1 % 2 ^ 16 + n1 / 2 ^ 16 in
    Ends-round (suc (suc fuel)) n h (λ low. Ends-round (suc fuel) n1 (omega (arith, h)) (λ low'.
      let small : n2 < 2 ^ 16 = omega (arith, h) in
      (n2, fold_small fuel n2 small, Folded-self n2 small)))
