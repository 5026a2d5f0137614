-- ===== src/Smap/Phy/Parts.antt =====
-- smap/smap.c, `InitPHY`: each part goes on, gives up or halts, and the loops without a bound end once the
-- stop flag stays set.
use ps2eth.Prelude.{
  ℕ, zero, suc, ◌+◌, ◌-◌, ◌≤◌, ◌<◌, ◌≡◌, refl, Bool, true, false, arith, leb, ◌==◌, bit_and, bit_or,
  Bool-cases, inl, inr, if◌then◌else◌,
}
use ps2eth.Smap.Regs.{has}
use ps2eth.Smap.Phy.Machine.{
  Bus, Mach, tick, write_reg, set_link, restart, bmcr, bmcr_100m, bmsr_link, bmsr_ancp, bmsr,
}
use ps2eth.Smap.Phy.Init.{
  Step, next, gave_up, stopped, and_next, or_next, check_stop, wait_link, poll_link, three_seconds,
  try_once, try_retries, try_forced, negotiate, has_bits,
}

module _ (b : Bus) where
  -- The driver's flag for the link is set, and BMSR showed a link before.
  pub data Up (m : Mach) : Type 0 where
    up : (t : ℕ) → t < m.clock → has (b.reg t bmsr) bmsr_link ≡ true → m.link_status ≡ true → Up m

  -- A part that begins at the time `lo`, and may give up if `give` is true: it goes on at `lo` or later,
  -- with a link if `link` is true, or the stop flag was set at some time.
  pub data Fair (lo : ℕ) (link give : Bool) : Step → Type 0 where
    goes_on : (m : Mach) → lo ≤ m.clock → (link ≡ true → Up m) → Fair lo link give (next m)
    gives_up : (m : Mach) → lo ≤ m.clock → give ≡ true → Fair lo link give (gave_up m)
    halts : (m : Mach) (t : ℕ) → t < m.clock → b.stop t ≡ true → Fair lo link give (stopped m)

  either_way :
      {lo : ℕ} {link give : Bool} (c : Bool) {s t : Step}
      → (c ≡ true → Fair lo link give s)
      → (c ≡ false → Fair lo link give t)
      → Fair lo link give (if c then s else t)
  either_way true f g = f refl
  either_way false f g = g refl

  check_stop-Fair : (m : Mach) (give : Bool) → Fair (suc m.clock) false give (check_stop b m)
  unfolding check_stop tick
  check_stop-Fair m give =
      either_way (b.stop m.clock) (λ e. halts _ m.clock (omega arith) e)
        (λ e. goes_on _ (omega arith) (λ q. cc))

  sooner :
      {lo lo' : ℕ} {link give : Bool} {s : Step}
      → lo' ≤ lo
      → Fair lo link give s
      → Fair lo' link give s
  sooner h (goes_on m l e) = goes_on m (omega (arith, h, l)) e
  sooner h (gives_up m l e) = gives_up m (omega (arith, h, l)) e
  sooner h (halts m t p e) = halts m t p e

  and_next-Fair :
      {lo lo' : ℕ} {link link' give : Bool} {s : Step} {f : Mach → Step}
      → lo' ≤ lo
      → Fair lo link give s
      → ((m : Mach) → lo ≤ m.clock → Fair lo link' give (f m))
      → Fair lo' link' give (and_next s f)
  and_next-Fair h (goes_on m l e) k = sooner h (k m l)
  and_next-Fair h (gives_up m l e) k = gives_up m (omega (arith, h, l)) e
  and_next-Fair h (halts m t p e) k = halts m t p e

  or_next-Fair :
      {lo lo' : ℕ} {link give give' : Bool} {s : Step} {f : Mach → Step}
      → lo' ≤ lo
      → Fair lo link give s
      → ((m : Mach) → lo ≤ m.clock → Fair lo link give' (f m))
      → Fair lo' link give' (or_next s f)
  or_next-Fair h (goes_on m l e) k = goes_on m (omega (arith, h, l)) e
  or_next-Fair h (gives_up m l e) k = sooner h (k m l)
  or_next-Fair h (halts m t p e) k = halts m t p e

  poll_link-Fair : (n : ℕ) (m : Mach) → Fair (suc m.clock) true true (poll_link b n m)
  unfolding poll_link tick set_link
  poll_link-Fair zero m =
      either_way (has_bits b bmsr bmsr_link m) (λ _. gives_up _ (omega arith) refl)
        (λ _.
          and_next-Fair (omega arith) (check_stop-Fair (tick m) true) (λ m1 l. gives_up m1 l refl))
  poll_link-Fair (suc n) m =
      either_way (has_bits b bmsr bmsr_link m)
        (λ e. goes_on _ (omega arith) (λ _. up m.clock (omega arith) e refl))
        (λ _.
          and_next-Fair (omega arith) (check_stop-Fair (tick m) true)
            (λ m1 l. sooner (omega (arith, l)) (poll_link-Fair n m1)))

  three_seconds-Fair : (m : Mach) → Fair (suc m.clock) false true (three_seconds b m)
  unfolding three_seconds
  three_seconds-Fair m = and_next-Fair (omega arith) (check_stop-Fair m true) (λ m1 l.
      and_next-Fair (omega (arith, l)) (check_stop-Fair m1 true)
        (λ m2 l'. sooner (omega (arith, l')) (check_stop-Fair m2 true)))

  try_once-Fair : (m : Mach) → Fair (suc m.clock) true true (try_once b m)
  unfolding try_once tick
  try_once-Fair m = and_next-Fair (omega arith) (three_seconds-Fair m) (λ m1 l.
      either_way (bit_and (b.reg m1.clock bmsr) (bit_or bmsr_ancp 0x10) == bmsr_ancp)
        (λ _. sooner (omega (arith, l)) (poll_link-Fair 20 (tick m1)))
        (λ _. gives_up _ (omega (arith, l)) refl))

  try_retries-Fair : (n : ℕ) (m : Mach) → Fair m.clock true true (try_retries b n m)
  unfolding try_retries restart write_reg
  try_retries-Fair zero m = gives_up m (omega arith) refl
  try_retries-Fair (suc n) m =
      or_next-Fair (omega arith) (try_once-Fair m)
        (λ m1 l. sooner (omega (arith, l)) (try_retries-Fair n (restart m1)))

  try_forced-Fair : (mode : ℕ) (m : Mach) → Fair (suc m.clock) true true (try_forced b mode m)
  unfolding try_forced write_reg
  try_forced-Fair mode m =
      and_next-Fair (omega arith) (check_stop-Fair (write_reg bmcr mode m) true)
        (λ m1 l. sooner (omega (arith, l)) (poll_link-Fair 30 m1))

  module _ (T : ℕ) (stays : (t : ℕ) → T ≤ t → b.stop t ≡ true) where
    -- From the time `T` on, a test of the stop flag ends the function.
    check_stop-late : (m : Mach) → T ≤ m.clock → check_stop b m ≡ stopped (tick m)
    unfolding check_stop
    check_stop-late m h = rw (check_stop, stays m.clock h) refl

    pub early : (t : ℕ) → b.stop t ≡ false → t < T
    early t e = elim (Bool-cases (leb T t)) [
      | inl l ↦ absurd (ground (arith, l, e, stays t (ground (arith, l))))
      | inr l ↦ ground (arith, l)
    ]

    -- The machine after a round of the loop behind `WaitLink` without a link.
    unfoldable late5 : ℕ → Mach → Mach
    late5 i m = if leb 5 (i + 1) then set_link false (tick (tick m)) else tick (tick m)

    clock-late5 : (i : ℕ) (m : Mach) → (late5 i m).clock ≡ m.clock + 2
    unfolding late5 tick set_link
    clock-late5 i m = elim (Bool-cases (leb 5 (i + 1))) [
      | inl e ↦ rw e (ground arith)
      | inr e ↦ rw e (ground arith)
    ]

    pub wait_link-Fair :
        (n i : ℕ) (m : Mach) → T - m.clock < n → Fair m.clock true false (wait_link b n i m)
    unfolding wait_link tick set_link check_stop late5
    wait_link-Fair zero i m h = absurd (omega (arith, h))
    wait_link-Fair (suc n) i m h = elim (Bool-cases (b.stop m.clock)) [
      | inl e ↦ rw (wait_link, check_stop, e) (halts _ m.clock (omega arith) e)
      | inr e ↦
          let l : m.clock < T = early m.clock e in
          rw (wait_link, check_stop, e)
            (either_way (has_bits b bmsr bmsr_link (tick m))
              (λ w. goes_on _ (omega arith) (λ _. up (m.clock + 1) (omega arith) w refl))
              (λ _.
                sooner (omega (arith, clock-late5 i m))
                  (wait_link-Fair n (i + 1) (late5 i m) (omega (arith, l, h, clock-late5 i m)))))
    ]

    pub negotiate-Fair :
        (n : ℕ) (m : Mach) → T - m.clock < n → Fair m.clock true false (negotiate b n m)
    unfolding negotiate try_retries try_once three_seconds check_stop tick
    negotiate-Fair zero m h = absurd (omega (arith, h))
    negotiate-Fair (suc n) m h = elim (Bool-cases (b.stop m.clock)) [
      | inl e ↦
          rw (negotiate, try_retries, try_once, three_seconds, check_stop, e)
            (halts _ m.clock (omega arith) e)
      | inr e ↦
          let l : m.clock < T = early m.clock e in
          or_next-Fair (omega arith) (try_retries-Fair 3 m) (λ m1 l1.
            or_next-Fair (omega (arith, l1)) (try_forced-Fair bmcr_100m m1) (λ m2 l2.
              or_next-Fair (omega (arith, l1, l2)) (try_forced-Fair 0 m2) (λ m3 l3.
                sooner (omega (arith, l1, l2, l3))
                  (negotiate-Fair n m3 (omega (arith, l, l1, l2, l3, h))))))
    ]
