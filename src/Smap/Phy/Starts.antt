-- ===== src/Smap/Phy/Starts.antt =====
-- smap/smap.c, `IntrHandlerThread`: SMAP_EVENT_START with the end of `InitPHY` in place of a given outcome.
use ps2eth.Prelude.{
  ℕ, ◌-◌, ◌≤◌, ◌<◌, ◌≡◌, refl, Bool, true, false, arith, Bool-cases, inl, inr, Option, none, some,
}
use ps2eth.Smap.Regs.{has}
use ps2eth.Smap.Thread.{
  Phy, Work, Started, broken, over, going, start_driver, initialized, phy_set_up,
}
use ps2eth.Smap.Phy.Machine.{Bus, Mach, bmcr, bmcr_rst, bmsr, bmsr_link}
use ps2eth.Smap.Phy.Init.{PhyEnd, failed, halted, linked, out_of_fuel, init_phy}
use ps2eth.Smap.Phy.Parts.{up}
use ps2eth.Smap.Phy.Ends.{Ended, is_failed, is_halted, is_linked, init_phy-Ended}

-- What the thread sees of the end: the result and `NetDevStopFlag` when the function returns.
unfoldable pub phy_answer : Bus → PhyEnd → Option Phy
phy_answer b (failed m) =
    some (record { ok = false; link_status = m.link_status; net_dev_stop_flag = b.stop m.clock })
phy_answer b (halted m) =
    some (record { ok = true; link_status = m.link_status; net_dev_stop_flag = b.stop m.clock })
phy_answer b (linked m d) =
    some (record { ok = true; link_status = m.link_status; net_dev_stop_flag = b.stop m.clock })
phy_answer b out_of_fuel = none

abbrev pub with_phy : Option Phy → Work → Option Started
with_phy none w = none
with_phy (some p) w = some (start_driver p w)

-- The start of the driver from the call of `InitPHY` on.
unfoldable pub start_with : Bus → (auto strap : Bool) → ℕ → Mach → Work → Option Started
start_with b auto strap n m w = with_phy (phy_answer b (init_phy b auto strap n m)) w

module _ (b : Bus) (w : Work) where
  -- The thread is left where the PHY is still in its reset; else the round is over, with the stop flag
  -- clear and the driver not initialized by it, or it goes on with the driver initialized and a link.
  pub data Begun (t0 : ℕ) : Option Started → Type 0 where
    is_broken : has (b.reg t0 bmcr) bmcr_rst ≡ true → Begun t0 (some broken)
    is_over :
        (w' : Work)
        → w'.thread.net_dev_stop_flag ≡ false
        → w'.thread.smap_is_initialized ≡ w.thread.smap_is_initialized
        → Begun t0 (some (over w'))
    is_going :
        (w' : Work) (t : ℕ)
        → w'.thread.smap_is_initialized ≡ true
        → w'.thread.link_status ≡ true
        → has (b.reg t bmsr) bmsr_link ≡ true
        → Begun t0 (some (going w'))

  initialized-Begun :
      (t0 t : ℕ) (p : Phy)
      → p.link_status ≡ true
      → has (b.reg t bmsr) bmsr_link ≡ true
      → Begun t0 (some (going (initialized (phy_set_up p w))))
  unfolding initialized
  initialized-Begun t0 t p l e = elim (Bool-cases w.thread.enable_link_check_timer) [
    | inl c ↦ rw (initialized, c) (is_going _ t refl l e)
    | inr c ↦ rw (initialized, c) (is_going _ t refl l e)
  ]

  module _ (keeps : (t t' : ℕ) → t ≤ t' → b.stop t ≡ true → b.stop t' ≡ true) where
    answer-Begun : (t0 : ℕ) (e : PhyEnd) → Ended b t0 e → Begun t0 (with_phy (phy_answer b e) w)
    unfolding phy_answer start_driver
    answer-Begun t0 e (is_failed m r) = is_broken r
    answer-Begun t0 e (is_halted m t p s) =
        rw (keeps t m.clock (omega (arith, p)) s) (is_over _ refl refl)
    answer-Begun t0 e (is_linked m t (up t' p r l)) = elim (Bool-cases (b.stop m.clock)) [
      | inl s ↦ rw s (is_over _ refl refl)
      | inr s ↦ rw s (
          initialized-Begun t0 t'
            (record { ok = true; link_status = m.link_status; net_dev_stop_flag = false }) l r)
    ]

    -- Where nobody clears the stop flag and it is set at some time `T`, the start of the driver with more
    -- fuel than the time up to `T` returns, whatever the PHY answers. The thread is left where the first
    -- read of BMCR still shows the reset; else the round is over with the stop flag clear, or the driver is
    -- initialized and `LinkStatus` is set, after a read of BMSR that showed a link.
    pub start_with-Begun :
        (auto strap : Bool) (n T : ℕ) (m : Mach)
        → b.stop T ≡ true
        → T - m.clock < n
        → Begun m.clock (start_with b auto strap n m w)
    unfolding start_with
    start_with-Begun auto strap n T m s h =
        answer-Begun m.clock _ (init_phy-Ended b T (λ t l. keeps T t l s) auto strap n m h)
