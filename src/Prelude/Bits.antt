-- ===== src/Prelude/Bits.antt =====
-- `&`, `|` and shifts on fields of bits, as arithmetic at every width.
-- The native operations mean `bitwise`, a recursion on binary digits with fuel; the step laws drop it.
use Prim.Native.Nat.{ℕ, zero, suc, ◌+◌, ◌-◌, ◌*◌, ◌/◌, ◌%◌, ◌^◌, ◌≤◌, ◌<◌, min, max}
use Prim.Native.Nat.{bit_and, bit_or, digits, bitwise, bit_and-bitwise, bit_or-bitwise}
use mathlib.Core.Path.{◌≡◌, refl, sym, ap, ◌∙◌}
use native.Mathlib.Nat.{le_refl, pow-suc, one-le-pow}
use native.Mathlib.Omega.{arith}

-- Both operations are instances of one recursion, with `last` for the digits that are left of `b`.
module _ (last : ℕ → ℕ) (op : ℕ → ℕ → ℕ) where
  -- A unit of fuel beyond what the first number needs changes nothing.
  spare_unit : (n x y : ℕ) → x ≤ n → digits last op (suc n) x y ≡ digits last op n x y
  spare_unit zero zero y enough = refl
  spare_unit zero (suc x) y enough = absurd (omega arith)
  spare_unit (suc n) zero y enough = refl
  spare_unit (suc n) (suc x) y enough = rw (spare_unit n (suc x / 2) (y / 2) (omega arith)) refl

  spare_fuel :
      (spare need x y : ℕ) → x ≤ need → digits last op (spare + need) x y ≡ digits last op need x y
  spare_fuel zero need x y enough = ap (λ k. digits last op k x y) (omega arith)
  spare_fuel (suc spare) need x y enough =
      let moved : suc spare + need ≡ suc (spare + need) = omega arith in
      ap (λ k. digits last op k x y) moved
      ∙ spare_unit (spare + need) x y (omega arith)
      ∙ spare_fuel spare need x y enough

  half_fuel : (x y : ℕ) → digits last op x (suc x / 2) y ≡ bitwise last op (suc x / 2) y
  half_fuel x y =
      let split : x ≡ (x - suc x / 2) + suc x / 2 = omega arith in
      ap (λ k. digits last op k (suc x / 2) y) split
      ∙ spare_fuel (x - suc x / 2) (suc x / 2) (suc x / 2) y (le_refl _)

  lowest_digit :
      (x y : ℕ)
      → op (suc x % 2) (y % 2) + 2 * bitwise last op (suc x / 2) (y / 2) ≡ bitwise last op (suc x) y
  lowest_digit x y = omega (arith, half_fuel x (y / 2))

pub bit_or_step : (x y : ℕ) → bit_or x y ≡ max (x % 2) (y % 2) + 2 * bit_or (x / 2) (y / 2)
bit_or_step zero y = simp bit_or-bitwise (omega arith)
bit_or_step (suc x) y = simp bit_or-bitwise (omega (arith, lowest_digit (λ r. r) max x y))

pub bit_and_step : (x y : ℕ) → bit_and x y ≡ min (x % 2) (y % 2) + 2 * bit_and (x / 2) (y / 2)
bit_and_step zero y = simp bit_and-bitwise (omega arith)
bit_and_step (suc x) y = simp bit_and-bitwise (omega (arith, lowest_digit (λ r. 0) min x y))

bit_or-zero_below : (n a : ℕ) → a ≤ n → bit_or a 0 ≡ a
bit_or-zero_below n zero h = refl
bit_or-zero_below zero (suc a) h = absurd (omega arith)
bit_or-zero_below (suc n) (suc a) h =
    omega (arith, bit_or_step (suc a) 0, bit_or-zero_below n (suc a / 2) (omega arith))

pub bit_or-zero : (a : ℕ) → bit_or a 0 ≡ a
bit_or-zero a = bit_or-zero_below a a (le_refl _)

zero-bit_or : (b : ℕ) → bit_or 0 b ≡ b
zero-bit_or b = simp bit_or-bitwise (omega arith)

pub zero-bit_and : (y : ℕ) → bit_and 0 y ≡ 0
zero-bit_and y = simp bit_and-bitwise (omega arith)

bit_and-zero_below : (n a : ℕ) → a ≤ n → bit_and a 0 ≡ 0
bit_and-zero_below n zero h = refl
bit_and-zero_below zero (suc a) h = absurd (omega arith)
bit_and-zero_below (suc n) (suc a) h =
    omega (arith, bit_and_step (suc a) 0, bit_and-zero_below n (suc a / 2) (omega arith))

pub bit_and-zero : (a : ℕ) → bit_and a 0 ≡ 0
bit_and-zero a = bit_and-zero_below a a (le_refl _)

mul-pow-suc : (n w : ℕ) → n * 2 ^ suc w ≡ 2 * (n * 2 ^ w)
mul-pow-suc n w = let double = pow-suc 2 w in ap (λ (p : ℕ). n * p) double ∙ omega arith

-- A high part shifted by `w` bits and a low part below `2 ^ w` do not overlap.
pub bit_or_fields : (w high low : ℕ) → low < 2 ^ w → bit_or (high * 2 ^ w) low ≡ high * 2 ^ w + low
bit_or_fields zero high low fits = ground (arith, bit_or-zero high)
bit_or_fields (suc w) high low fits =
    let shift = mul-pow-suc high w in
    let halves = bit_or_fields w high (low / 2) (omega (arith, pow-suc 2 w)) in
    ground (arith, bit_or_step (high * 2 ^ suc w) low, shift, halves)

-- `x & (m << k)` looks at the bits from `k` on only.
pub bit_and_fields :
    (k m q r : ℕ) → r < 2 ^ k → bit_and (q * 2 ^ k + r) (m * 2 ^ k) ≡ bit_and q m * 2 ^ k
bit_and_fields zero m q r fits = ground (arith, bit_and-zero q)
bit_and_fields (suc k) m q r fits = ground (
  arith,
  bit_and_step (q * 2 ^ suc k + r) (m * 2 ^ suc k),
  mul-pow-suc q k,
  mul-pow-suc m k,
  mul-pow-suc (bit_and q m) k,
  bit_and_fields k m q (r / 2) (omega arith),
)

low_fields : (k q r : ℕ) → r < 2 ^ k → bit_and (q * 2 ^ k + r) (2 ^ k - 1) ≡ r
low_fields zero q r fits = ground (arith, bit_and-zero (q * 1 + r))
low_fields (suc k) q r fits = ground (
  arith,
  bit_and_step (q * 2 ^ suc k + r) (2 ^ suc k - 1),
  mul-pow-suc q k,
  pow-suc 2 k,
  one-le-pow k 2,
  low_fields k q (r / 2) (omega arith),
)

-- A mask of `k` low bits is the remainder by `2 ^ k`.
pub bit_and_low : (k a : ℕ) → bit_and a (2 ^ k - 1) ≡ a % 2 ^ k
bit_and_low k a = ground (arith, one-le-pow k 2, low_fields k (a / 2 ^ k) (a % 2 ^ k))

-- A mask of the bits from `k` on.
pub bit_and_shifted : (k m a : ℕ) → bit_and a (m * 2 ^ k) ≡ bit_and (a / 2 ^ k) m * 2 ^ k
bit_and_shifted k m a = ground (arith, one-le-pow k 2, bit_and_fields k m (a / 2 ^ k) (a % 2 ^ k))

-- A mask of `w` bits from `k` on, in a word of `k + w` bits at most.
pub bit_and_window : (k w a : ℕ) → bit_and a ((2 ^ w - 1) * 2 ^ k) ≡ a / 2 ^ k % 2 ^ w * 2 ^ k
bit_and_window k w a =
    bit_and_shifted k (2 ^ w - 1) a ∙ ap (λ t. t * 2 ^ k) (bit_and_low w (a / 2 ^ k))

bit_or_comm_below : (n a b : ℕ) → a + b ≤ n → bit_or a b ≡ bit_or b a
bit_or_comm_below zero a b h =
    let ea : a ≡ 0 = omega arith in let eb : b ≡ 0 = omega arith in rw (ea, eb)
bit_or_comm_below (suc n) zero b h = omega (arith, zero-bit_or b, bit_or-zero b)
bit_or_comm_below (suc n) (suc a) b h = omega (
  arith,
  bit_or_step (suc a) b,
  bit_or_step b (suc a),
  bit_or_comm_below n (suc a / 2) (b / 2) (omega arith),
)

pub bit_or_comm : (a b : ℕ) → bit_or a b ≡ bit_or b a
bit_or_comm a b = bit_or_comm_below (a + b) a b (le_refl _)

low_mask : (k q r m : ℕ) → r < 2 ^ k → m < 2 ^ k → bit_and (q * 2 ^ k + r) m ≡ bit_and r m
low_mask zero q r m h l =
    let z : m ≡ 0 = omega (arith, l) in rw z (bit_and-zero _ ∙ sym (bit_and-zero r))
low_mask (suc k) q r m h l = ground (
  arith,
  bit_and_step (q * 2 ^ suc k + r) m,
  bit_and_step r m,
  mul-pow-suc q k,
  low_mask k q (r / 2) (m / 2) (omega (arith, pow-suc 2 k)) (omega (arith, pow-suc 2 k)),
)

-- A mask sees only the digits below its width.
pub bit_and_mod : (k a m : ℕ) → m < 2 ^ k → bit_and (a % 2 ^ k) m ≡ bit_and a m
bit_and_mod k a m h =
    ground (
      arith,
      one-le-pow k 2,
      low_mask k (a / 2 ^ k) (a % 2 ^ k) m (omega (arith, one-le-pow k 2)) h,
    )
