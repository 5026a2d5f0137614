-- ===== src/Linux/Access.antt =====
-- smap-linux/smap.c: `ReadPhy`, `WritePhy`, `FIFOReset` and `EMAC3SoftReset`, which poll a register. What it reads
-- is an argument, by the number of the access.
use ps2eth.Prelude.{
  ℕ, zero, suc, ◌+◌, ◌*◌, ◌/◌, ◌^◌, ◌≤◌, ◌<◌, ◌≡◌, arith, Bool, true, false, bit_and, bit_or,
  Option, none, some, Bool-cases, subst, inl, inr, leb, if◌then◌else◌,
}
use ps2eth.Smap.Regs.{has}
use ps2eth.Smap.Phy.Registers.{phy_op_comp}
use ps2eth.Linux.Phy.{loop_count}

-- `for(iA=SMAP_LOOP_COUNT;iA!=0;--iA) if(ok) ...`, with `n` rounds left, from the access `k` on: the access
-- that ends it.
unfoldable pub poll : (ok : ℕ → Bool) → ℕ → ℕ → Option ℕ
poll ok zero k = none
poll ok (suc n) k = let rest = poll ok n (k + 1) in if ok k then some k else rest

unfoldable pub is_complete : (sta : ℕ → ℕ) → ℕ → Bool
is_complete sta k = has (sta k) phy_op_comp

-- What is written for a read and for a write.
unfoldable pub phy_read : (phy_addr reg_addr : ℕ) → ℕ
phy_read phy_addr reg_addr =
    bit_or (bit_or (2 ^ 12) (bit_and phy_addr 0x1F * 2 ^ 5)) (bit_and reg_addr 0x1F)

unfoldable pub phy_write : (phy_addr reg_addr value : ℕ) → ℕ
phy_write phy_addr reg_addr value =
    bit_or
      (bit_or (bit_or (bit_and value 0xFFFF * 2 ^ 16) (2 * 2 ^ 12)) (bit_and phy_addr 0x1F * 2 ^ 5))
      (bit_and reg_addr 0x1F)

abbrev pub polled : Option ℕ → Bool
polled none = false
polled (some k) = true

abbrev pub behind_poll {ℓ} : {A : Type ℓ} → Option ℕ → A → (ℕ → A) → A
behind_poll none d f = d
behind_poll (some k) d f = f k

-- `ReadPhy`, with `none` for -1.
unfoldable pub read_phy : (sta : ℕ → ℕ) → Option ℕ
read_phy sta = behind_poll (poll (is_complete sta) loop_count 0) none (λ k.
    behind_poll (poll (is_complete sta) loop_count (k + 1)) none (λ j. some (sta (j + 1) / 2 ^ 16)))

-- `WritePhy`, whose result is 0 or -1.
unfoldable pub write_phy : (sta : ℕ → ℕ) → Bool
write_phy sta =
    behind_poll (poll (is_complete sta) loop_count 0) false
      (λ k. polled (poll (is_complete sta) loop_count (k + 1)))

-- `FIFOReset`; `tx k` and `rx k` say whether the reset of a FIFO is over.
unfoldable pub fifo_reset : (tx rx : ℕ → Bool) → ℕ
fifo_reset tx rx =
    let v = if polled (poll tx loop_count 0) then 0 else 1 in
    if polled (poll rx loop_count 0) then v else bit_or v 2

-- `EMAC3SoftReset`, whose result is 0 or -1.
unfoldable pub emac3_soft_reset : (over : ℕ → Bool) → Bool
emac3_soft_reset over = polled (poll over loop_count 0)

-- How a poll ends: at the first access of its range with the condition, or without one.
pub data Polled (ok : ℕ → Bool) (n k : ℕ) : Option ℕ → Type 0 where
  at_first :
      (i : ℕ)
      → k ≤ i
      → i < k + n
      → ok i ≡ true
      → ((j : ℕ) → k ≤ j → j < i → ok j ≡ false)
      → Polled ok n k (some i)
  never : ((j : ℕ) → k ≤ j → j < k + n → ok j ≡ false) → Polled ok n k none

earlier :
    (ok : ℕ → Bool) (n k : ℕ) (o : Option ℕ)
    → ok k ≡ false
    → Polled ok n (k + 1) o
    → Polled ok (suc n) k o
earlier ok n k o e (at_first i a b c d) =
    at_first i (omega (arith, a)) (omega (arith, b)) c (λ j p q. elim (Bool-cases (leb (k + 1) j)) [
      | inl l ↦ d j (ground (arith, l)) q
      | inr l ↦ let s : k ≡ j = ground (arith, l, p) in subst (λ t. ok t ≡ false) s e
    ])
earlier ok n k o e (never d) = never (λ j p q. elim (Bool-cases (leb (k + 1) j)) [
  | inl l ↦ d j (ground (arith, l)) (omega (arith, q))
  | inr l ↦ let s : k ≡ j = ground (arith, l, p) in subst (λ t. ok t ≡ false) s e
])

poll-Polled : (ok : ℕ → Bool) (n k : ℕ) → Polled ok n k (poll ok n k)
unfolding poll
poll-Polled ok zero k = never (λ j p q. absurd (omega (arith, p, q)))
poll-Polled ok (suc n) k = elim (Bool-cases (ok k)) [
  | inl e ↦
      rw (poll, e)
        (at_first k (omega arith) (omega arith) e (λ j p q. absurd (omega (arith, p, q))))
  | inr e ↦ rw (poll, e) (earlier ok n k _ e (poll-Polled ok n (k + 1)))
]

-- The value that `ReadPhy` returns is read right after an access that shows the operation complete, and one
-- before it did so too; else there are as many accesses as a loop has rounds without it.
data Answered (sta : ℕ → ℕ) : Option ℕ → Type 0 where
  answered :
      (k j : ℕ)
      → k < j
      → is_complete sta k ≡ true
      → is_complete sta j ≡ true
      → Answered sta (some (sta (j + 1) / 2 ^ 16))
  silent :
      (k : ℕ)
      → ((j : ℕ) → k ≤ j → j < k + loop_count → is_complete sta j ≡ false)
      → Answered sta none

second_poll :
    (sta : ℕ → ℕ) (k : ℕ) (o : Option ℕ)
    → is_complete sta k ≡ true
    → Polled (is_complete sta) loop_count (k + 1) o
    → Answered sta (behind_poll o none (λ j. some (sta (j + 1) / 2 ^ 16)))
second_poll sta k o e (at_first i a b c d) = answered k i (omega (arith, a)) e c
second_poll sta k o e (never d) = silent (k + 1) d

first_poll :
    (sta : ℕ → ℕ) (o : Option ℕ)
    → Polled (is_complete sta) loop_count 0 o
    → Answered sta (
        behind_poll o none (λ k.
          behind_poll
            (poll (is_complete sta) loop_count (k + 1))
            none
            (λ j. some (sta (j + 1) / 2 ^ 16))))
first_poll sta o (at_first i a b c d) =
    second_poll sta i _ c (poll-Polled (is_complete sta) loop_count (i + 1))
first_poll sta o (never d) = silent 0 d

read_phy-Answered : (sta : ℕ → ℕ) → Answered sta (read_phy sta)
unfolding read_phy
read_phy-Answered sta = first_poll sta _ (poll-Polled (is_complete sta) loop_count 0)
