-- ===== src/Net/Copy.antt =====
-- The loop that copies a hardware address byte by byte.
use ps2eth.Prelude.{
  ℕ, zero, suc, ◌+◌, ◌≤◌, ◌<◌, ◌≡◌, refl, sym, arith, List, [], ◌∷◌, get_or, set, length,
  length-set, ◌∙◌, ap, ap₂, ◌≢◌, Bool-cases, ◌==◌, inl, inr,
}
use ps2eth.Net.{copy_loop, copy_addr, EthAddr}

pub get_or-set_ne : (xs : List ℕ) (i j v d : ℕ) → i ≢ j → get_or (set xs i v) j d ≡ get_or xs j d
get_or-set_ne [] i j v d h = refl
get_or-set_ne (x ∷ xs) zero zero v d h = absurd (h refl)
get_or-set_ne (x ∷ xs) zero (suc j) v d h = refl
get_or-set_ne (x ∷ xs) (suc i) zero v d h = refl
get_or-set_ne (x ∷ xs) (suc i) (suc j) v d h = get_or-set_ne xs i j v d (λ e. h (ap suc e))

pub get_or-set_self : (xs : List ℕ) (i v d : ℕ) → i < length xs → get_or (set xs i v) i d ≡ v
get_or-set_self [] i v d h = elim h [ ]
get_or-set_self (x ∷ xs) zero v d h = refl
get_or-set_self (x ∷ xs) (suc i) v d h = get_or-set_self xs i v d (omega arith)

pub get_or_ext :
    (xs ys : List ℕ)
    → length xs ≡ length ys
    → ((i : ℕ) → i < length xs → get_or xs i 0 ≡ get_or ys i 0)
    → xs ≡ ys
get_or_ext [] [] e h = refl
get_or_ext [] (y ∷ ys) e h = absurd (omega arith)
get_or_ext (x ∷ xs) [] e h = absurd (omega arith)
get_or_ext (x ∷ xs) (y ∷ ys) e h =
    ap₂ ◌∷◌ (h 0 (omega arith)) (get_or_ext xs ys (omega arith) (λ i l. h (suc i) (omega arith)))

pub length-copy_loop : (n k : ℕ) (src dst : EthAddr) → length (copy_loop n k src dst) ≡ length dst
unfolding copy_loop
length-copy_loop zero k src dst = refl
length-copy_loop (suc n) k src dst =
    length-copy_loop n (k + 1) src _ ∙ length-set dst k (get_or src k 0)

-- The bytes below the start are left alone.
below_copy :
    (n k i : ℕ) (src dst : EthAddr) → i < k → get_or (copy_loop n k src dst) i 0 ≡ get_or dst i 0
unfolding copy_loop
below_copy zero k i src dst h = refl
below_copy (suc n) k i src dst h =
    below_copy n (k + 1) i src _ (omega arith) ∙ get_or-set_ne dst k i _ 0 (omega arith)

within_copy :
    (n k i : ℕ) (src dst : EthAddr)
    → k ≤ i
    → i < k + n
    → i < length dst
    → get_or (copy_loop n k src dst) i 0 ≡ get_or src i 0
unfolding copy_loop
within_copy zero k i src dst lo hi fits = absurd (omega arith)
within_copy (suc n) k i src dst lo hi fits = elim (Bool-cases (i == k)) [
  | inl e ↦
      let e' : i ≡ k = ground arith in
      rw e' (below_copy n (k + 1) k src _ (omega arith) ∙ get_or-set_self dst k _ 0 (omega arith))
  | inr ne ↦
      within_copy n (k + 1) i src (set dst k (get_or src k 0)) (ground arith) (omega arith)
        (omega (arith, length-set dst k (get_or src k 0)))
]

-- Copying all the bytes of an address makes the target equal to the source.
pub copy_addr-all :
    (src dst : EthAddr) → length src ≡ length dst → copy_addr (length dst) src dst ≡ src
copy_addr-all src dst e =
    get_or_ext (copy_addr (length dst) src dst) src (length-copy_loop _ 0 src dst ∙ sym e) λ i h.
      within_copy (length dst) 0 i src dst (omega arith)
        (omega (arith, length-copy_loop (length dst) 0 src dst))
        (omega (arith, length-copy_loop (length dst) 0 src dst))

-- A write to the source below the start does not reach the copy.
pub copy_loop-set_src :
    (n k j v : ℕ) (src dst : EthAddr)
    → j < k
    → copy_loop n k (set src j v) dst ≡ copy_loop n k src dst
unfolding copy_loop
copy_loop-set_src zero k j v src dst h = refl
copy_loop-set_src (suc n) k j v src dst h =
    rw (get_or-set_ne src j k v 0 (omega arith))
      (copy_loop-set_src n (k + 1) j v src _ (omega arith))
