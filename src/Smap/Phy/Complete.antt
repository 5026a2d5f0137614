-- ===== src/Smap/Phy/Complete.antt =====
-- smap/smap.c: `_smap_write_phy` and `_smap_read_phy` against the accesses at which the operation is complete.
use ps2eth.Prelude.{
  ℕ, zero, suc, ◌+◌, ◌-◌, ◌/◌, ◌^◌, ◌≤◌, ◌<◌, ◌≡◌, refl, true, false, arith, leb, Bool-cases, ◌==◌,
  subst, inl, inr, ◌⊎◌,
}
use ps2eth.Net.{u16}
use ps2eth.Smap.Regs.{has}
use ps2eth.Smap.Phy.Registers.{phy_op_comp, write_loop, smap_write_phy, read_loop, smap_read_phy}

module _ (sta : ℕ → ℕ) where
  -- The loop that begins at `i` ends with `e`: the first access of a complete operation, or 100.
  pub record Waited (i e : ℕ) : Type 0 where
    pub bound : e ≤ 100
    pub before : (j : ℕ) → i ≤ j → j < e → has (sta j) phy_op_comp ≡ false
    pub after : (e ≡ 100) ⊎ (has (sta e) phy_op_comp ≡ true)

  before-earlier :
      (i e j : ℕ)
      → has (sta i) phy_op_comp ≡ false
      → Waited (i + 1) e
      → i ≤ j
      → j < e
      → has (sta j) phy_op_comp ≡ false
  before-earlier i e j f w a b = elim (Bool-cases (i == j)) [
    | inl q ↦ subst (λ t. has (sta t) phy_op_comp ≡ false) (ground (arith, q)) f
    | inr q ↦ w.before j (ground (arith, q, a)) b
  ]

  Waited-earlier : (i e : ℕ) → has (sta i) phy_op_comp ≡ false → Waited (i + 1) e → Waited i e
  Waited-earlier i e f w = record {
    bound = w.bound;
    before = (λ j a b. before-earlier i e j f w a b);
    after = w.after;
  }

  write_loop-Waited : (n i : ℕ) → n + i ≡ 101 → i ≤ 100 → Waited i (write_loop sta n i)
  unfolding write_loop
  write_loop-Waited zero i h l = absurd (omega (arith, h, l))
  write_loop-Waited (suc n) i h l = elim (Bool-cases (has (sta i) phy_op_comp)) [
    | inl e ↦
        rw (write_loop, e)
          (record { bound = l; before = (λ j a b. absurd (omega (arith, a, b))); after = inr e })
    | inr e ↦ elim (Bool-cases (leb 100 i)) [
      | inl f ↦
          rw (write_loop, e, f)
            (record {
              bound = l;
              before = (λ j a b. absurd (omega (arith, a, b)));
              after = inl (ground (arith, f, l));
            })
      | inr f ↦
          rw (write_loop, e, f)
            (Waited-earlier i _ e
              (write_loop-Waited n (i + 1) (omega (arith, h)) (ground (arith, f))))
    ]
  ]

  -- The three reads in a row that the value is taken from.
  pub data Taken (k : ℕ) : ℕ → Type 0 where
    taken :
        (j : ℕ)
        → k ≤ j
        → has (sta j) phy_op_comp ≡ true
        → has (sta (j + 1)) phy_op_comp ≡ true
        → has (sta (j + 2)) phy_op_comp ≡ true
        → Taken k (u16 (sta (j + 2) / 2 ^ 16))

  Taken-later : (k k' v : ℕ) → k ≤ k' → Taken k' v → Taken k v
  Taken-later k k' v h (taken j l a b c) = taken j (omega (arith, h, l)) a b c

  not_yet :
      (c t : ℕ)
      → ((i : ℕ) → c ≤ i → has (sta i) phy_op_comp ≡ true)
      → has (sta t) phy_op_comp ≡ false
      → t < c
  not_yet c t stays e = elim (Bool-cases (leb c t)) [
    | inl l ↦ absurd (ground (arith, e, stays t (ground (arith, l))))
    | inr l ↦ ground (arith, l)
  ]

  read_loop-Taken :
      (c n k : ℕ)
      → ((t : ℕ) → c ≤ t → has (sta t) phy_op_comp ≡ true)
      → c - k < n
      → Taken k (read_loop sta n k)
  unfolding read_loop
  read_loop-Taken c zero k stays h = absurd (omega (arith, h))
  read_loop-Taken c (suc n) k stays h = elim (Bool-cases (has (sta k) phy_op_comp)) [
    | inr e ↦
        rw (read_loop, e)
          (Taken-later k (k + 1) _ (omega arith)
            (read_loop-Taken c n (k + 1) stays (omega (arith, h, not_yet c k stays e))))
    | inl e ↦ elim (Bool-cases (has (sta (k + 1)) phy_op_comp)) [
      | inr f ↦
          rw (read_loop, e, f)
            (Taken-later k (k + 2) _ (omega arith)
              (read_loop-Taken c n (k + 2) stays (omega (arith, h, not_yet c (k + 1) stays f))))
      | inl f ↦ elim (Bool-cases (has (sta (k + 2)) phy_op_comp)) [
        | inr g ↦
            rw (read_loop, e, f, g)
              (Taken-later k (k + 3) _ (omega arith)
                (read_loop-Taken c n (k + 3) stays (omega (arith, h, not_yet c (k + 2) stays g))))
        | inl g ↦ rw (read_loop, e, f, g) (taken k (omega arith) e f g)
      ]
    ]
  ]

  -- `_smap_write_phy` returns, after at most 101 reads: at the first read that shows the operation complete,
  -- or after 100 others.
  smap_write_phy-Waited : Waited 0 (smap_write_phy sta)
  unfolding smap_write_phy
  smap_write_phy-Waited = write_loop-Waited 101 0 refl (omega arith)

  -- Where the operation stays complete from the access `c` on, for `c` below 100, `_smap_read_phy` returns
  -- the upper half of the last of three complete reads in a row.
  pub smap_read_phy-Taken :
      (c : ℕ)
      → ((t : ℕ) → c ≤ t → has (sta t) phy_op_comp ≡ true)
      → c < 100
      → Taken 0 (smap_read_phy sta)
  unfolding smap_read_phy
  smap_read_phy-Taken c stays h = read_loop-Taken c 100 0 stays (omega (arith, h))
