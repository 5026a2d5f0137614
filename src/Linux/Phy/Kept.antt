-- ===== src/Linux/Phy/Kept.antt =====
-- smap-linux/smap.c: what the parts of `PhyInit` do to the link flags.
use ps2eth.Prelude.{
  bit_or, ℕ, zero, suc, ◌+◌, ◌<◌, subst, inl, inr, ◌⊎◌, ◌≡◌, refl, ap, ap₂, ◌∙◌, arith, Bool, true,
  false, not, Option, leb, if◌then◌else◌,
}
use ps2eth.Smap.Phy.Machine.{bmcr, bmsr, bmsr_ancp, bmcr_100m, bmcr_dupm, bmcr_rsan}
use ps2eth.Smap.Phy.Modes.{bmcr_anen}
use ps2eth.Linux.Media.{equals, physts, tests}
use ps2eth.Linux.Phy.{
  Registers, Flags, Smap, Wait, found, expired, tick, write_phy, write_mode1, dsp_writes,
  set_link_valid, on_wait, wait_for, confirm_speed, confirm_auto_negotiation, negotiation_retries,
  auto_negotiation, phy_set_dsp, valid_link, loop_count,
}

-- A loop that leaves the flags alone; `Shown` holds if it finds what it waits for, and `Never` if it does not.
pub data Kept (f : Flags) (Shown Never : Type 0) : Wait → Type 0 where
  kept_found : (v : Option ℕ) (s : Smap) → s.flags ≡ f → Shown → Kept f Shown Never (found v s)
  kept_expired : (s : Smap) → s.flags ≡ f → Never → Kept f Shown Never (expired s)

abbrev pub established : Flags → Flags
established f = record f { link_establish = true; link_valid = true }

abbrev pub settled : Flags
settled = record {
  link_establish = true;
  link_valid = true;
  check_force_100m = false;
  check_force_10m = false;
}

module _ (r : Registers) where
  -- At some time the register reads what is waited for.
  abbrev pub IsShown : ℕ → (Option ℕ → Bool) → Type 0
  IsShown reg ok = (t : ℕ) × (ok (r.read_phy t reg) ≡ true)

  -- None of `n` reads from the time `t` on reads it.
  abbrev pub IsNever : ℕ → (Option ℕ → Bool) → ℕ → ℕ → Type 0
  IsNever reg ok n t = (j : ℕ) → j < n → ok (r.read_phy (t + j) reg) ≡ false

  IsNever-suc :
      (reg : ℕ) (ok : Option ℕ → Bool) (n t : ℕ)
      → ok (r.read_phy t reg) ≡ false
      → IsNever reg ok n (t + 1)
      → IsNever reg ok (suc n) t
  IsNever-suc reg ok n t e h zero l =
      let here : t ≡ t + 0 = omega arith in subst (λ k. ok (r.read_phy k reg) ≡ false) here e
  IsNever-suc reg ok n t e h (suc j) l =
      let there : t + 1 + j ≡ t + suc j = omega arith in
      subst (λ k. ok (r.read_phy k reg) ≡ false) there (h j (omega (arith, l)))

  Kept-either :
      {f : Flags} {Shown Never : Type 0} (c : Bool) {w w' : Wait}
      → (c ≡ true → Kept f Shown Never w)
      → (c ≡ false → Kept f Shown Never w')
      → Kept f Shown Never (if c then w else w')
  Kept-either true k k' = k refl
  Kept-either false k k' = k' refl

  Kept-later :
      {f : Flags} {Shown Never Never' : Type 0} (w : Wait)
      → (Never → Never')
      → Kept f Shown Never w
      → Kept f Shown Never' w
  Kept-later w g (kept_found v s e h) = kept_found v s e h
  Kept-later w g (kept_expired s e h) = kept_expired s e (g h)

  pub wait_for-Kept :
      (reg : ℕ) (ok : Option ℕ → Bool) (n : ℕ) (s : Smap)
      → Kept s.flags (IsShown reg ok) (IsNever reg ok n s.clock) (wait_for r reg ok n s)
  unfolding wait_for tick
  wait_for-Kept reg ok zero s = kept_expired s refl (λ j l. absurd (omega (arith, l)))
  wait_for-Kept reg ok (suc n) s =
      Kept-either (ok (r.read_phy s.clock reg)) (λ e. kept_found _ _ refl (s.clock, e))
        (λ e. Kept-later _ (IsNever-suc reg ok n s.clock e) (wait_for-Kept reg ok n (tick s)))

  flags-on_wait :
      (f : Flags) {Shown Never : Type 0} (w : Wait) (g : Option ℕ → Smap → Smap) (h : Smap → Smap)
      → Kept f Shown Never w
      → ((v : Option ℕ) (s : Smap) → (g v s).flags ≡ s.flags)
      → ((s : Smap) → (h s).flags ≡ s.flags)
      → (on_wait w g h).flags ≡ f
  flags-on_wait f w g h (kept_found v s e o) i j = i v s ∙ e
  flags-on_wait f w g h (kept_expired s e o) i j = j s ∙ e

  flags-confirm_speed : (s : Smap) → (confirm_speed r s).flags ≡ s.flags
  unfolding confirm_speed write_mode1 tick
  flags-confirm_speed s =
      flags-on_wait s.flags _ _ _ (wait_for-Kept physts _ loop_count s) (λ v s1. refl) (λ s1. refl)

  flags-branch :
      {f : Flags} (c : Bool) (s t : Smap)
      → s.flags ≡ f
      → t.flags ≡ f
      → (if c then s else t).flags ≡ f
  flags-branch true s t e k = e
  flags-branch false s t e k = k

  result-on_wait :
      (f : Flags) {Shown Never : Type 0} (w : Wait) (g : Option ℕ → Smap → Bool × Smap)
      (h : Smap → Bool × Smap)
      → Kept f Shown Never w
      → ((v : Option ℕ) (s : Smap) → (g v s).1.flags ≡ s.flags)
      → ((s : Smap) → (h s).1.flags ≡ s.flags)
      → (on_wait w g h).1.flags ≡ f
  result-on_wait f w g h (kept_found v s e o) i j = i v s ∙ e
  result-on_wait f w g h (kept_expired s e o) i j = j s ∙ e

  flags-either :
      {f : Flags} (c : Bool) (s t : Smap)
      → (c ≡ true → s.flags ≡ f)
      → (c ≡ false → t.flags ≡ f)
      → (if c then s else t).flags ≡ f
  flags-either true s t e k = e refl
  flags-either false s t e k = k refl

  flags-confirm_auto_negotiation : (s : Smap) → (confirm_auto_negotiation r s).1.flags ≡ s.flags
  unfolding confirm_auto_negotiation tick
  flags-confirm_auto_negotiation s =
      result-on_wait s.flags _ _ _ (wait_for-Kept bmsr _ 3000 s)
        (λ v s1.
          flags-branch (leb 0x13 (r.rev_1 s1.clock)) _ _ refl (flags-confirm_speed (tick s1)))
        (λ s1. refl)

  result-branch :
      {f : Flags} (c : Bool) (s t : Bool × Smap)
      → s.1.flags ≡ f
      → t.1.flags ≡ f
      → (if c then s else t).1.flags ≡ f
  result-branch true s t e k = e
  result-branch false s t e k = k

  flags-negotiation_retries : (n : ℕ) (s : Smap) → (negotiation_retries r n s).1.flags ≡ s.flags
  unfolding negotiation_retries write_phy
  flags-negotiation_retries zero s = refl
  flags-negotiation_retries (suc n) s =
      let e = flags-confirm_auto_negotiation (write_phy bmcr _ s) in
      result-branch _ _ _ e (flags-negotiation_retries n _ ∙ e)

  pub flags-auto_negotiation : (s : Smap) → (auto_negotiation r false s).1.flags ≡ s.flags
  unfolding auto_negotiation
  flags-auto_negotiation s =
      let e = flags-confirm_auto_negotiation s in
      result-branch _ _ _ e (flags-negotiation_retries 3 _ ∙ e)

  shown-on_wait :
      {f : Flags} {Shown Never : Type 0} (w : Wait) (g : Option ℕ → Smap → Smap)
      → Kept f Shown Never w
      → (on_wait {A = Bool × Smap} w (λ v s. (true, g v s)) (λ s. (false, s))).0 ≡ true
      → Shown
  shown-on_wait w g (kept_found v s e h) q = h
  shown-on_wait w g (kept_expired s e h) q = absurd (ground (arith, q))

  -- BMSR shows a complete negotiation at some time.
  abbrev pub IsNegotiated : Type 0
  IsNegotiated = IsShown bmsr (λ v. tests bmsr_ancp v)

  confirm_auto_negotiation-IsNegotiated :
      (s : Smap) → (confirm_auto_negotiation r s).0 ≡ true → IsNegotiated
  unfolding confirm_auto_negotiation
  confirm_auto_negotiation-IsNegotiated s q =
      shown-on_wait _ _ (wait_for-Kept bmsr (λ v. tests bmsr_ancp v) 3000 s) q

  one_of_both :
      (c rest : Bool × Smap) → (if c.0 then c else rest).0 ≡ true → (c.0 ≡ true) ⊎ (rest.0 ≡ true)
  one_of_both (true, s) rest q = inl refl
  one_of_both (false, s) rest q = inr q

  negotiation_retries-IsNegotiated :
      (n : ℕ) (s : Smap) → (negotiation_retries r n s).0 ≡ true → IsNegotiated
  unfolding negotiation_retries
  negotiation_retries-IsNegotiated zero s q = absurd (ground (arith, q))
  negotiation_retries-IsNegotiated (suc n) s q =
      let v = bit_or (bit_or (bit_or bmcr_100m bmcr_anen) bmcr_dupm) bmcr_rsan in
      let first = confirm_auto_negotiation r (write_phy bmcr v s) in
      elim (one_of_both first (negotiation_retries r n first.1) q) [
        | inl c ↦ confirm_auto_negotiation-IsNegotiated (write_phy bmcr v s) c
        | inr c ↦ negotiation_retries-IsNegotiated n first.1 c
      ]

  pub auto_negotiation-IsNegotiated :
      (s : Smap) → (auto_negotiation r false s).0 ≡ true → IsNegotiated
  unfolding auto_negotiation
  auto_negotiation-IsNegotiated s q =
      let first = confirm_auto_negotiation r s in
      elim (one_of_both first (negotiation_retries r 3 first.1) q) [
        | inl c ↦ confirm_auto_negotiation-IsNegotiated s c
        | inr c ↦ negotiation_retries-IsNegotiated 3 first.1 c
      ]

  pub flags-phy_set_dsp :
      (s : Smap) → s.flags.link_establish ≡ true → (phy_set_dsp r s).flags ≡ established s.flags
  unfolding phy_set_dsp set_link_valid dsp_writes tick write_phy
  flags-phy_set_dsp s e =
      let valid : record (s.flags) { link_valid = true } ≡ established s.flags =
        ap (λ b. record (s.flags) { link_establish = b; link_valid = true }) e in
      flags-either (not s.flags.link_establish) _ _ (λ c. absurd (ground (arith, c, e)))
        (λ c. flags-branch _ _ _ valid (
          flags-either s.flags.link_valid _ _
            (λ k. ap₂ (λ b b'. record (s.flags) { link_establish = b; link_valid = b' }) e k)
            (λ k.
              ap {A = Flags} (λ g. record g { link_valid = true })
                (flags-branch {f = s.flags} (equals 7 3 (r.read_phy (s.clock + 3) physts)) _ _ refl
                  refl)
              ∙ valid)))

  pub flags-valid_link : (s : Smap) → (valid_link r s).flags ≡ settled
  unfolding valid_link write_mode1 tick
  flags-valid_link s = flags-phy_set_dsp _ refl
