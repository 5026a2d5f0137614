-- ===== src/Smap/Phy/Ends.antt =====
-- smap/smap.c: how `InitPHY` ends, from the ends of its parts.
use ps2eth.Prelude.{
  ℕ, zero, suc, ◌+◌, ◌-◌, ◌≤◌, ◌<◌, ◌≡◌, refl, Bool, true, false, List, not, arith, ◌==◌, bit_and,
  Bool-cases, inl, inr, if◌then◌else◌,
}
use ps2eth.Smap.Regs.{has}
use ps2eth.Smap.Phy.Modes.{Dump}
use ps2eth.Smap.Phy.Machine.{
  Bus, Mach, tick, write_reg, bmcr, bmcr_rst, is_dp83846a, set_up_dp83846a, set_up_rev0,
}
use ps2eth.Smap.Phy.Init.{
  Step, reset_loop, wait_link, check_stop, advertise, finish, PhyEnd, failed, halted, linked,
  wait_and_finish, negotiate_and_finish, choose_mode, init_phy, ends_with, dump_at,
}
use ps2eth.Smap.Phy.Parts.{
  Fair, goes_on, gives_up, halts, Up, up, wait_link-Fair, negotiate-Fair, early,
}

module _ (b : Bus) where
  -- The function that begins at the time `t0` fails only where BMCR still holds the reset at once, returns
  -- for the stop flag only where it was set, and else ends with the link up and with the registers that
  -- were read from some time on.
  pub data Ended (t0 : ℕ) : PhyEnd → Type 0 where
    is_failed : (m : Mach) → has (b.reg t0 bmcr) bmcr_rst ≡ true → Ended t0 (failed m)
    is_halted : (m : Mach) (t : ℕ) → t < m.clock → b.stop t ≡ true → Ended t0 (halted m)
    is_linked : (m : Mach) (t : ℕ) → Up b m → Ended t0 (linked m (dump_at b t))

  Up-branch : (c : Bool) {s t : Mach} → Up b s → Up b t → Up b (if c then s else t)
  Up-branch true u v = u
  Up-branch false u v = v

  Ended-branch :
      {t0 : ℕ} (c : Bool) {s t : PhyEnd} → Ended t0 s → Ended t0 t → Ended t0 (if c then s else t)
  Ended-branch true u v = u
  Ended-branch false u v = v

  Up-write : (m : Mach) (ws : List (ℕ × ℕ)) → Up b m → Up b (record m { writes = ws })
  Up-write m ws (up t l e f) = up t l e f

  Up-set_up : (auto : Bool) (d : Dump) (m : Mach) → Up b m → Up b (set_up_dp83846a auto d m)
  unfolding set_up_dp83846a set_up_rev0 write_reg
  Up-set_up auto d m u =
      let u1 = Up-branch _ (Up-write m _ u) u in
      Up-branch (bit_and d.phyidr2 0xF == 0) (Up-write _ _ u1) u1

  Up-later : (m : Mach) (n : ℕ) → Up b m → Up b (record m { clock = m.clock + n })
  Up-later m n (up t l e f) = up t (omega (arith, l)) e f

  finish-Ended :
      {t0 : ℕ} (auto : Bool) (again : Mach → PhyEnd) (m : Mach)
      → Up b m
      → ((m' : Mach) → m.clock < m'.clock → Ended t0 (again m'))
      → Ended t0 (finish b auto again m)
  unfolding finish write_reg
  finish-Ended auto again m u k =
      let u1 = Up-later m 6 u in
      let u2 = Up-later _ 4 u1 in
      Ended-branch (is_dp83846a (dump_at b m.clock))
        (Ended-branch auto
          (Ended-branch _ (k _ (omega arith)) (is_linked _ m.clock (Up-set_up auto _ _ u2)))
          (is_linked _ m.clock (Up-set_up auto _ _ u1)))
        (is_linked _ m.clock u1)

  ends_with-Ended :
      {t0 lo : ℕ} {s : Step} {f : Mach → PhyEnd}
      → Fair b lo true false s
      → ((m : Mach) → lo ≤ m.clock → Up b m → Ended t0 (f m))
      → Ended t0 (ends_with s f)
  ends_with-Ended (goes_on m l e) k = k m l (e refl)
  ends_with-Ended (gives_up m l e) k = absurd (ground (arith, e))
  ends_with-Ended (halts m t p e) k = is_halted m t p e

  module _ (T : ℕ) (stays : (t : ℕ) → T ≤ t → b.stop t ≡ true) where
    wait_and_finish-Ended :
        {t0 : ℕ} (auto : Bool) (n : ℕ) (m : Mach)
        → T - m.clock < n
        → Ended t0 (wait_and_finish b auto n m)
    unfolding wait_and_finish wait_link check_stop tick
    wait_and_finish-Ended auto zero m h = absurd (omega (arith, h))
    wait_and_finish-Ended auto (suc n) m h = elim (Bool-cases (b.stop m.clock)) [
      | inl e ↦ rw (wait_and_finish, wait_link, check_stop, e) (is_halted _ m.clock (omega arith) e)
      | inr e ↦
          let early' : m.clock < T = early b T stays m.clock e in
          ends_with-Ended (wait_link-Fair b T stays (suc n) 0 m h) (λ m1 l u.
            finish-Ended auto _ m1 u
              (λ m2 l'. wait_and_finish-Ended auto n m2 (omega (arith, h, l, l', early'))))
    ]

    negotiate_and_finish-Ended :
        {t0 : ℕ} (n : ℕ) (m : Mach) → T - m.clock < n → Ended t0 (negotiate_and_finish b n m)
    unfolding negotiate_and_finish
    negotiate_and_finish-Ended n m h = ends_with-Ended (negotiate-Fair b T stays n m h) (λ m1 l u.
        finish-Ended true _ m1 u
          (λ m2 l'. wait_and_finish-Ended true n m2 (omega (arith, h, l, l'))))

    choose_mode-Ended :
        {t0 : ℕ} (auto strap : Bool) (n : ℕ) (m : Mach)
        → T - m.clock < n
        → Ended t0 (choose_mode b auto strap n m)
    unfolding choose_mode tick advertise write_reg
    choose_mode-Ended auto strap n m h =
        Ended-branch (not auto) (wait_and_finish-Ended auto n _ (omega (arith, h))) (
          Ended-branch (not strap) (negotiate_and_finish-Ended n _ (omega (arith, h))) (
            Ended-branch _ (wait_and_finish-Ended auto n _ (omega (arith, h)))
              (negotiate_and_finish-Ended n _ (omega (arith, h)))))

    -- However the PHY answers: once the stop flag stays set from the time `T` on, the function ends, in one
    -- of three ways. It returns -1, where the first read of BMCR still shows the reset; it returns for the
    -- stop flag, where this was set; or it goes on to the link mode, with `LinkStatus` set and after a read
    -- of BMSR that showed a link.
    pub init_phy-Ended :
        (auto strap : Bool) (n : ℕ) (m : Mach)
        → T - m.clock < n
        → Ended m.clock (init_phy b auto strap n m)
    unfolding init_phy reset_loop write_reg tick
    init_phy-Ended auto strap zero m h = absurd (omega (arith, h))
    init_phy-Ended auto strap (suc n) m h = elim (Bool-cases (has (b.reg m.clock bmcr) bmcr_rst)) [
      | inl e ↦ rw (init_phy, reset_loop, e) (is_failed _ e)
      | inr e ↦
          rw (init_phy, reset_loop, e) (choose_mode-Ended auto strap (suc n) _ (omega (arith, h)))
    ]
