-- ===== src/Smap/Args/Ranges.antt =====
-- smap/smap.c: the settings that the arguments of `smap_init` lead to.
use ps2eth.Prelude.{
  ℕ, zero, suc, ◌+◌, ◌*◌, ◌^◌, ◌≤◌, ◌<◌, ◌≡◌, refl, ap, sym, ◌∙◌, not, append_nil, ◌≢◌, ℤ, pos,
  negsuc, Bool, true, false, Option, none, some, List, [], ◌∷◌, ◌++◌, arith, leb, ◌&&◌,
  Option-cases, inl, inr, if◌then◌else◌,
}
use ps2eth.Net.{u32}
use ps2eth.Smap.Config.{sub32, parse_smap_configuration}
use ps2eth.Smap.Config.Digits.{characters, AreDecimal}
use ps2eth.Smap.Args.{
  str_help, str_version, str_verbose, str_auto, str_no_auto, str_strap, str_no_strap, str_thpri,
  str_thstack, str_kb, streq, behind, isdigit, starts_with_digit, skip_digits, Settings, Parsed,
  help, banner, go_on, parse_thpri, parse_thstack, parse_conf, parse_value, parse_argument,
  parse_arguments, started, smap_init,
}
use ps2eth.Smap.Init.{Device, check_device}
use ps2eth.Smap.Init.Resets.{Accepted, check_device-Accepted}

-- A priority that the kernel takes for a user thread, and two flags.
pub record IsValid (s : Settings) : Type 0 where
  pub priority_low : 9 ≤ s.thread_priority
  pub priority_high : s.thread_priority < 124
  pub verbose : s.enable_verbose_output < 2
  pub auto : s.enable_auto_negotiation < 2
  pub strap : s.enable_pin_strap_config < 2

-- What holds of the settings of an argument that is accepted.
pub data Accepts : Parsed → Type 0 where
  refused : Accepts help
  version : Accepts banner
  accepted : (s : Settings) → IsValid s → Accepts (go_on s)

either_way :
    (b : Bool) {x y : Parsed}
    → (b ≡ true → Accepts x)
    → (b ≡ false → Accepts y)
    → Accepts (if b then x else y)
either_way true f g = f refl
either_way false f g = g refl

in_range : (n : ℕ) → leb 0x73 (sub32 (u32 n) 9) ≡ false → (9 ≤ u32 n) × (u32 n < 124)
in_range n b = let small : sub32 (u32 n) 9 < 0x73 = ground (arith, b) in omega (arith, small)

module _ (strtoul : List ℕ → ℕ) where
  parse_thpri-Accepts :
      (cmd : List ℕ) (s : Settings) → IsValid s → Accepts (parse_thpri strtoul cmd s)
  unfolding parse_thpri
  parse_thpri-Accepts cmd s v =
      either_way (starts_with_digit cmd)
        (λ _.
          either_way (leb 0x73 (sub32 (u32 (strtoul cmd)) 9)) (λ _. refused)
            (λ b.
              either_way (streq (skip_digits cmd) [])
                (λ _. accepted _ (record {
                  priority_low = (in_range (strtoul cmd) b).0;
                  priority_high = (in_range (strtoul cmd) b).1;
                  verbose = v.verbose;
                  auto = v.auto;
                  strap = v.strap;
                }))
                (λ _. refused)))
        (λ _. refused)

  parse_thstack-Accepts :
      (cmd : List ℕ) (s : Settings) → IsValid s → Accepts (parse_thstack strtoul cmd s)
  unfolding parse_thstack
  parse_thstack-Accepts cmd s v =
      either_way (starts_with_digit cmd)
        (λ _.
          either_way (streq (skip_digits cmd) str_kb) (λ _. accepted _ (same v))
            (λ _. accepted _ (same v)))
        (λ _. refused)
    where
      same : {n : ℕ} → IsValid s → IsValid (record s { thread_stack_size = n })
      same v = record {
        priority_low = v.priority_low;
        priority_high = v.priority_high;
        verbose = v.verbose;
        auto = v.auto;
        strap = v.strap;
      }

  parse_conf-Accepts : (arg : List ℕ) (s : Settings) → IsValid s → Accepts (parse_conf arg s)
  unfolding parse_conf
  parse_conf-Accepts arg s v = elim (Option-cases (parse_smap_configuration arg)) [
    | inl q ↦ rw (parse_conf, q) refused
    | inr (n, q) ↦
        rw (parse_conf, q)
          (accepted _ (record {
            priority_low = v.priority_low;
            priority_high = v.priority_high;
            verbose = v.verbose;
            auto = v.auto;
            strap = v.strap;
          }))
  ]

  parse_value-Accepts :
      (arg : List ℕ) (s : Settings) → IsValid s → Accepts (parse_value strtoul arg s)
  unfolding parse_value
  parse_value-Accepts arg s v = elim (Option-cases (behind str_thpri arg)) [
    | inr (cmd, q) ↦ rw (parse_value, q) (parse_thpri-Accepts cmd s v)
    | inl q ↦ elim (Option-cases (behind str_thstack arg)) [
      | inr (cmd, r) ↦ rw (parse_value, q, r) (parse_thstack-Accepts cmd s v)
      | inl r ↦ rw (parse_value, q, r) (parse_conf-Accepts arg s v)
    ]
  ]

  set_flags :
      (s : Settings) (a b c : ℕ)
      → IsValid s
      → a < 2
      → b < 2
      → c < 2
      → Accepts (
          go_on (record s {
            enable_verbose_output = a;
            enable_auto_negotiation = b;
            enable_pin_strap_config = c;
          }))
  set_flags s a b c v ha hb hc = accepted _ (record {
    priority_low = v.priority_low;
    priority_high = v.priority_high;
    verbose = ha;
    auto = hb;
    strap = hc;
  })

  parse_argument-Accepts :
      (arg : List ℕ) (s : Settings) → IsValid s → Accepts (parse_argument strtoul arg s)
  unfolding parse_argument
  parse_argument-Accepts arg s v =
      let verbose = s.enable_verbose_output in
      let auto = s.enable_auto_negotiation in
      let strap = s.enable_pin_strap_config in
      let two : 1 < 2 = omega arith in
      let none_set : 0 < 2 = omega arith in
      either_way (streq str_help arg) (λ _. refused)
        (λ _.
          either_way (streq str_version arg) (λ _. version)
            (λ _.
              either_way (streq str_verbose arg)
                (λ _. set_flags s 1 auto strap v two v.auto v.strap)
                (λ _.
                  either_way (streq str_auto arg)
                    (λ _. set_flags s verbose 1 strap v v.verbose two v.strap)
                    (λ _.
                      either_way (streq str_no_auto arg)
                        (λ _. set_flags s verbose 0 strap v v.verbose none_set v.strap)
                        (λ _.
                          either_way (streq str_strap arg)
                            (λ _. set_flags s verbose auto 1 v v.verbose v.auto two)
                            (λ _.
                              either_way (streq str_no_strap arg)
                                (λ _. set_flags s verbose auto 0 v v.verbose v.auto none_set)
                                (λ _. parse_value-Accepts arg s v)))))))

  go_on_with :
      (args : List (List ℕ)) (p : Parsed)
      → Accepts p
      → ((s : Settings) → IsValid s → Accepts (parse_arguments strtoul args s))
      → Accepts
          (elim p [ help ↦ help | banner ↦ banner | go_on s ↦ parse_arguments strtoul args s ])
  go_on_with args help a k = refused
  go_on_with args banner a k = version
  go_on_with args (go_on s) (accepted _ v) k = k s v

  -- From settings that are valid, any arguments lead to the help text, to the banner, or to settings
  -- that are valid: a priority from 9 to 123, and flags that are 0 or 1.
  pub parse_arguments-Accepts :
      (args : List (List ℕ)) (s : Settings) → IsValid s → Accepts (parse_arguments strtoul args s)
  unfolding parse_arguments
  parse_arguments-Accepts [] s v = accepted s v
  parse_arguments-Accepts (arg ∷ args) s v =
      go_on_with args (parse_argument strtoul arg s) (parse_argument-Accepts arg s v)
        (λ s' v'. parse_arguments-Accepts args s' v')

isdigit-decimal : (d : ℕ) → d < 10 → isdigit (0x30 + d) ≡ true
isdigit-decimal d h = ground (arith, h)

skip_digits-characters :
    (ds rest : List ℕ) → AreDecimal ds → skip_digits (characters ds ++ rest) ≡ skip_digits rest
unfolding skip_digits characters AreDecimal
skip_digits-characters [] rest a = refl
skip_digits-characters (d ∷ ds) rest a =
    rw (isdigit-decimal d a.0) (skip_digits-characters ds rest a.1)

skip_nil : skip_digits [] ≡ []
unfolding skip_digits
skip_nil = refl

skip_kb : skip_digits str_kb ≡ str_kb
unfolding skip_digits
skip_kb = refl

out_of_range : (n : ℕ) → n < 2 ^ 32 → leb 0x73 (sub32 n 9) ≡ not (leb 9 n && leb n 123)
out_of_range n h = ground (arith, h)

if_not {ℓ} : {A : Type ℓ} (b : Bool) (x y : A) → (if not b then x else y) ≡ (if b then y else x)
if_not true x y = refl
if_not false x y = refl

thpri-number :
    (strtoul : List ℕ → ℕ) (cmd : List ℕ) (s : Settings) (n : ℕ)
    → starts_with_digit cmd ≡ true
    → skip_digits cmd ≡ []
    → strtoul cmd ≡ n
    → n < 2 ^ 32
    → parse_thpri strtoul cmd s
      ≡ (if leb 9 n && leb n 123 then go_on (record s { thread_priority = n }) else help)
unfolding parse_thpri streq
thpri-number strtoul cmd s n first last e h =
    let word : u32 n ≡ n = omega (arith, h) in
    rw (parse_thpri, first, last, e, word, out_of_range n h) (if_not (leb 9 n && leb n 123) _ _)

thstack-number :
    (strtoul : List ℕ → ℕ) (cmd : List ℕ) (s : Settings) (n : ℕ)
    → starts_with_digit cmd ≡ true
    → skip_digits cmd ≡ str_kb
    → strtoul cmd ≡ n
    → n < 2 ^ 22
    → parse_thstack strtoul cmd s ≡ go_on (record s { thread_stack_size = n * 1024 })
unfolding parse_thstack streq
thstack-number strtoul cmd s n first last e h =
    let word : u32 n ≡ n = omega (arith, h) in
    let wide : u32 (n * 2 ^ 10) ≡ n * 1024 = omega (arith, h) in
    rw (parse_thstack, first, last, e, word, wide) refl

first_digit : (d : ℕ) (cs : List ℕ) → d < 10 → starts_with_digit ((0x30 + d) ∷ cs) ≡ true
unfolding starts_with_digit
first_digit d cs h = isdigit-decimal d h

module _ (strtoul : List ℕ → ℕ) (s : Settings) (d : ℕ) (ds : List ℕ) (a : AreDecimal (d ∷ ds)) where
  -- `thpri=` with a decimal number sets the priority, if the number is from 9 to 123, and asks for the
  -- help text if it is not; `strtoul` reads a number of 32 bits.
  pub parse_argument-thpri :
      (n : ℕ)
      → strtoul (characters (d ∷ ds)) ≡ n
      → n < 2 ^ 32
      → parse_argument strtoul (str_thpri ++ characters (d ∷ ds)) s
        ≡ (if leb 9 n && leb n 123 then go_on (record s { thread_priority = n }) else help)
  unfolding parse_argument parse_value behind streq characters AreDecimal
  parse_argument-thpri n e h =
      let cmd = characters (d ∷ ds) in
      let last = skip_digits-characters (d ∷ ds) [] a in
      thpri-number strtoul cmd s n (first_digit d _ a.0)
        (ap skip_digits (sym (append_nil cmd)) ∙ last ∙ skip_nil) e h

  -- `thstack=` with a decimal number and KB sets the size of the stack to 1024 times the number.
  pub parse_argument-thstack :
      (n : ℕ)
      → strtoul (characters (d ∷ ds) ++ str_kb) ≡ n
      → n < 2 ^ 22
      → parse_argument strtoul (str_thstack ++ (characters (d ∷ ds) ++ str_kb)) s
        ≡ go_on (record s { thread_stack_size = n * 1024 })
  unfolding parse_argument parse_value behind streq characters AreDecimal
  parse_argument-thstack n e h =
      let cmd = characters (d ∷ ds) ++ str_kb in
      let last = skip_digits-characters (d ∷ ds) str_kb a in
      thstack-number strtoul cmd s n (first_digit d _ a.0) (last ∙ skip_kb) e h

-- What is behind a result of 0.
pub record Up (d : Device) (r : ℤ × Option Settings) : Type 0 where
  pub settings : Settings
  pub given : r.1 ≡ some settings
  pub valid : IsValid settings
  pub device : Accepted d

started-zero : (initialize code : ℤ) → started initialize code ≡ pos 0 → code ≡ pos 0
unfolding started
started-zero i (pos zero) e = refl
started-zero i (pos (suc n)) e = absurd (ground (arith, e))
started-zero i (negsuc n) e = absurd (ground (arith, e))

-- `smap_init` returns 0 only for arguments that it accepts, with valid settings, and for an adapter that
-- passes its checks.
pub smap_init-Up :
    (strtoul : List ℕ → ℕ) (no_resident_end initialize : ℤ) (caps : ℕ) (d : Device)
    (args : List (List ℕ)) (s : Settings)
    → IsValid s
    → no_resident_end ≢ pos 0
    → (smap_init strtoul no_resident_end initialize caps d args s).0 ≡ pos 0
    → Up d (smap_init strtoul no_resident_end initialize caps d args s)
unfolding smap_init
smap_init-Up strtoul end initialize caps d args s v ne e =
    by_arguments (parse_arguments strtoul args s) (parse_arguments-Accepts strtoul args s v) e
  where
    result : Parsed → ℤ × Option Settings
    result help = (pos 2, none)
    result banner = (end, none)
    result (go_on s') = (started initialize (check_device caps d), some s')

    by_arguments : (p : Parsed) → Accepts p → (result p).0 ≡ pos 0 → Up d (result p)
    by_arguments help a e = absurd (ground (arith, e))
    by_arguments banner a e = absurd (ne e)
    by_arguments (go_on s') (accepted _ v') e = record {
      settings = s';
      given = refl;
      valid = v';
      device = check_device-Accepted caps d (started-zero initialize (check_device caps d) e);
    }
