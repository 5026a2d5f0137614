-- ===== src/Linux/Phy/Settles.antt =====
-- smap-linux/smap.c: `PhyInit` returns, and what the link flags say then.
use ps2eth.Prelude.{
  ℕ, suc, ◌+◌, ◌<◌, not, ◌≡◌, refl, sym, ap, ap₂, ◌∙◌, arith, Bool, true, false, Option, some,
  if◌then◌else◌,
}
use ps2eth.Smap.Phy.Machine.{bmcr, bmsr, bmsr_link, bmcr_rst}
use ps2eth.Linux.Media.{tests, physts, sts_link}
use ps2eth.Linux.Phy.{
  Registers, Flags, Smap, Wait, tick, write_phy, on_wait, phy_reset, auto_negotiation, valid_link,
  check_100m, force_100m, force_10m, confirm_force_spd, no_link, with_result, phy_init, loop_count,
}
use ps2eth.Linux.Phy.Kept.{
  Kept, IsShown, IsNegotiated, auto_negotiation-IsNegotiated, kept_found, kept_expired,
  wait_for-Kept, flags-auto_negotiation, established, flags-phy_set_dsp, settled, flags-valid_link,
}

module _ (r : Registers) where
  -- Why the driver takes the link for established: a complete negotiation in BMSR, a link in BMSR, or one in
  -- PHYSTS.
  pub data IsSeen : Type 0 where
    negotiated : IsNegotiated r → IsSeen
    link_in_bmsr : IsShown r bmsr (λ v. tests bmsr_link v) → IsSeen
    link_in_physts : IsShown r physts (λ v. tests sts_link v) → IsSeen

  -- How `PhyInit` that begins at the time `t0` ends for a PHY that is not only reset: each read of BMCR shows
  -- the reset; or the link is established and valid; or the last read, of PHYSTS, shows no link, and the
  -- flags are as before.
  pub data Settled (t0 : ℕ) (f : Flags) : Option (Bool × Smap) → Type 0 where
    is_failed :
        (s : Smap)
        → s.flags ≡ f
        → ((j : ℕ) → j < loop_count → tests bmcr_rst (r.read_phy (t0 + j) bmcr) ≡ true)
        → Settled t0 f (some (false, s))
    is_up : (s : Smap) → s.flags ≡ settled → IsSeen → Settled t0 f (some (true, s))
    is_down :
        (s : Smap) (t : ℕ)
        → s.flags ≡ f
        → s.clock ≡ t + 1
        → tests sts_link (r.read_phy t physts) ≡ false
        → Settled t0 f (some (true, s))

  Settled-either :
      {t0 : ℕ} {f : Flags} (c : Bool) (s t : Smap)
      → (c ≡ true → Settled t0 f (some (true, s)))
      → (c ≡ false → Settled t0 f (some (true, t)))
      → Settled t0 f (with_result true (some (if c then s else t)))
  Settled-either true s t h k = h refl
  Settled-either false s t h k = k refl

  Settled-on_wait :
      {t0 : ℕ} (f f' : Flags) {Never : Type 0} (w : Wait) (g : Smap → Option Smap)
      → Kept f' (IsShown r bmsr (λ v. tests bmsr_link v)) Never w
      → ((s : Smap) → s.flags ≡ f' → Settled t0 f (with_result true (g s)))
      → Settled t0 f (with_result true (on_wait w (λ v s. some (valid_link r s)) g))
  Settled-on_wait f f' w g (kept_found v s e o) h = is_up _ (flags-valid_link r s) (link_in_bmsr o)
  Settled-on_wait f f' w g (kept_expired s e o) h = h s e

  Settled-then :
      {t0 : ℕ} {f : Flags} (c : Bool) (x y : Option Smap)
      → c ≡ true
      → Settled t0 f (with_result true x)
      → Settled t0 f (with_result true (if c then x else y))
  Settled-then true x y e k = k
  Settled-then false x y e k = absurd (ground (arith, e))

  Settled-else :
      {t0 : ℕ} {f : Flags} (c : Bool) (x y : Option Smap)
      → c ≡ false
      → Settled t0 f (with_result true y)
      → Settled t0 f (with_result true (if c then x else y))
  Settled-else true x y e k = absurd (ground (arith, e))
  Settled-else false x y e k = k

  no_link-10m :
      {t0 : ℕ} (f : Flags) (confirm : Smap → Option Smap) (s : Smap)
      → f.check_force_100m ≡ false
      → f.check_force_10m ≡ false
      → s.flags ≡ record f { check_force_10m = true }
      → Settled t0 f (with_result true (no_link r confirm s))
  unfolding no_link tick
  no_link-10m f confirm s a b e =
      let not_100m : s.flags.check_force_100m ≡ false = ap (λ g. g.check_force_100m) e ∙ a in
      let is_10m : s.flags.check_force_10m ≡ true = ap (λ g. g.check_force_10m) e in
      let before : record (s.flags) { check_force_10m = false } ≡ f =
        ap {A = Flags} (λ g. record g { check_force_10m = false }) e
        ∙ ap (λ c. record f { check_force_10m = c }) (sym b) in
      Settled-else s.flags.check_force_100m _ _ not_100m (
        Settled-then s.flags.check_force_10m _ _ is_10m (
          Settled-either (tests sts_link (r.read_phy s.clock physts)) _ _
            (λ l. is_up _ (flags-valid_link r _) (link_in_physts (s.clock, l)))
            (λ l. is_down _ s.clock before refl l)))

  confirm_force_spd-10m :
      {t0 : ℕ} (f : Flags) (n : ℕ) (s : Smap)
      → f.check_force_100m ≡ false
      → f.check_force_10m ≡ false
      → s.flags ≡ record f { check_force_10m = true }
      → Settled t0 f (with_result true (confirm_force_spd r (suc n) s))
  unfolding confirm_force_spd
  confirm_force_spd-10m f n s a b e =
      Settled-on_wait f s.flags _ _ (wait_for-Kept r bmsr _ 1000 s)
        (λ s1 e1. no_link-10m f _ s1 a b (e1 ∙ e))

  confirm_force_spd-100m :
      {t0 : ℕ} (f : Flags) (n : ℕ) (s : Smap)
      → f.check_force_100m ≡ false
      → f.check_force_10m ≡ false
      → s.flags ≡ record f { check_force_100m = true }
      → Settled t0 f (with_result true (confirm_force_spd r (suc (suc n)) s))
  unfolding confirm_force_spd no_link force_10m write_phy
  confirm_force_spd-100m f n s a b e =
      Settled-on_wait f s.flags _ _ (wait_for-Kept r bmsr _ 1000 s) (λ s1 e1.
        let is_100m : s1.flags.check_force_100m ≡ true = ap (λ g. g.check_force_100m) (e1 ∙ e) in
        let then_10m : record (s1.flags) { check_force_100m = false; check_force_10m = true }
            ≡ record f { check_force_10m = true } =
          ap {A = Flags} (λ g. record g { check_force_100m = false; check_force_10m = true })
            (e1 ∙ e)
          ∙ ap (λ c. record f { check_force_100m = c; check_force_10m = true }) (sym a) in
        Settled-then s1.flags.check_force_100m _ _ is_100m
          (confirm_force_spd-10m f n (force_10m (check_100m false s1)) a b then_10m))

  on_reset-Settled :
      {t0 : ℕ} (f : Flags) {Shown : Type 0} (w : Wait) (g : Option ℕ → Smap → Option (Bool × Smap))
      → Kept f Shown
          ((j : ℕ) → j < loop_count → not (tests bmcr_rst (r.read_phy (t0 + j) bmcr)) ≡ false)
          w
      → ((v : Option ℕ) (s : Smap) → s.flags ≡ f → Settled t0 f (g v s))
      → Settled t0 f (on_wait w g (λ s. some (false, s)))
  on_reset-Settled f w g (kept_found v s e o) h = h v s e
  on_reset-Settled f w g (kept_expired s e o) h =
      is_failed s e (λ j l. let q = o j l in ground (arith, q))

  Settled-if :
      {t0 : ℕ} {f : Flags} (c : Bool) (s : Smap) (y : Option (Bool × Smap))
      → s.flags ≡ settled
      → (c ≡ true → IsSeen)
      → Settled t0 f y
      → Settled t0 f (if c then some (true, s) else y)
  Settled-if true s y e h k = is_up s e (h refl)
  Settled-if false s y e h k = k

  -- However the registers read, `PhyInit` without its flag to reset only, with two units of fuel and with
  -- no forced mode under test before, returns in one of three ways. Each of the 10000 reads of BMCR shows
  -- the reset, and it returns -1 with the flags as they were. Or BMSR shows a complete negotiation or a
  -- link, or PHYSTS a link, and it returns 0 with the link established and valid and no forced mode under
  -- test. Or the last register that it reads, PHYSTS, shows no link, and it returns 0 with the flags as they
  -- were.
  pub phy_init-Settled :
      (s : Smap)
      → s.flags.check_force_100m ≡ false
      → s.flags.check_force_10m ≡ false
      → Settled s.clock s.flags (phy_init r false 2 s)
  unfolding phy_init phy_reset force_100m write_phy
  phy_init-Settled s a b =
      on_reset-Settled s.flags _ _ (wait_for-Kept r bmcr _ loop_count _) (λ v s1 e1.
        let e2 = flags-auto_negotiation r s1 ∙ e1 in
        let up : established
              (record ((auto_negotiation r false s1).1.flags) { link_establish = true })
            ≡ settled =
          ap₂
            (λ c d. record {
              link_establish = true;
              link_valid = true;
              check_force_100m = c;
              check_force_10m = d;
            })
            (ap (λ g. g.check_force_100m) e2 ∙ a) (ap (λ g. g.check_force_10m) e2 ∙ b) in
        Settled-if _ _ _ (flags-phy_set_dsp r _ refl ∙ up)
          (λ c. negotiated (auto_negotiation-IsNegotiated r s1 c))
          (confirm_force_spd-100m s.flags 0 _ a b
            (ap {A = Flags} (λ g. record g { check_force_100m = true }) e2)))
