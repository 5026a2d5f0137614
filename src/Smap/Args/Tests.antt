-- ===== src/Smap/Args/Tests.antt =====
-- smap/smap.c: the theorems on the arguments at concrete strings.
use ps2eth.Prelude.{ℕ, ◌+◌, ◌-◌, ◌*◌, List, [], ◌∷◌, arith, if◌then◌else◌}
use ps2eth.Smap.Config.Digits.{AreDecimal}
use ps2eth.Smap.Args.{Settings, isdigit, str_no_auto, parse_arguments}
use ps2eth.Smap.Args.Ranges.{IsValid, Accepts, parse_arguments-Accepts}

-- A `strtoul` for the base 10.
pub read_decimal : ℕ → List ℕ → ℕ
read_decimal acc [] = acc
read_decimal acc (c ∷ cs) =
    let rest = read_decimal (acc * 10 + (c - 0x30)) cs in if isdigit c then rest else acc

-- The initial values.
abbrev pub initial : Settings
initial = record {
  thread_priority = 0x28;
  thread_stack_size = 0x1000;
  enable_verbose_output = 0;
  enable_auto_negotiation = 1;
  enable_pin_strap_config = 0;
  smap_configuration = 0x5e0;
}

pub initial-IsValid : IsValid initial
initial-IsValid = record {
  priority_low = omega arith;
  priority_high = omega arith;
  verbose = omega arith;
  auto = omega arith;
  strap = omega arith;
}

parse_arguments-Accepts_example :
    Accepts (parse_arguments (read_decimal 0) (str_no_auto ∷ (0x31 ∷ []) ∷ []) initial)
parse_arguments-Accepts_example =
    parse_arguments-Accepts (read_decimal 0) (str_no_auto ∷ (0x31 ∷ []) ∷ []) initial
      initial-IsValid

four_two : AreDecimal (4 ∷ 2 ∷ [])
unfolding AreDecimal
four_two = ground arith
