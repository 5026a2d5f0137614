-- ===== src/Smap/Args.antt =====
-- smap/smap.c, `smap_init`: its loop over the arguments of the module, and what follows it. A string is
-- the list of its characters before the terminating zero. `strtoul`, of the SDK, is an argument.
pub mod Ranges
pub mod Tests
use ps2eth.Prelude.{
  ℕ, zero, suc, ◌+◌, ◌*◌, ◌^◌, Bool, true, false, ◌&&◌, Option, none, some, List, [], ◌∷◌, ℤ, pos,
  negsuc, ◌==◌, leb, if◌then◌else◌,
}
use ps2eth.Net.{u32}
use ps2eth.Smap.Config.{sub32, parse_smap_configuration}
use ps2eth.Smap.Init.{Device, check_device}

-- "-help"
abbrev pub str_help : List ℕ
str_help = 0x2d ∷ 0x68 ∷ 0x65 ∷ 0x6c ∷ 0x70 ∷ []

-- "-version"
abbrev pub str_version : List ℕ
str_version = 0x2d ∷ 0x76 ∷ 0x65 ∷ 0x72 ∷ 0x73 ∷ 0x69 ∷ 0x6f ∷ 0x6e ∷ []

-- "-verbose"
abbrev pub str_verbose : List ℕ
str_verbose = 0x2d ∷ 0x76 ∷ 0x65 ∷ 0x72 ∷ 0x62 ∷ 0x6f ∷ 0x73 ∷ 0x65 ∷ []

-- "-auto"
abbrev pub str_auto : List ℕ
str_auto = 0x2d ∷ 0x61 ∷ 0x75 ∷ 0x74 ∷ 0x6f ∷ []

-- "-no_auto"
abbrev pub str_no_auto : List ℕ
str_no_auto = 0x2d ∷ 0x6e ∷ 0x6f ∷ 0x5f ∷ 0x61 ∷ 0x75 ∷ 0x74 ∷ 0x6f ∷ []

-- "-strap"
abbrev pub str_strap : List ℕ
str_strap = 0x2d ∷ 0x73 ∷ 0x74 ∷ 0x72 ∷ 0x61 ∷ 0x70 ∷ []

-- "-no_strap"
abbrev pub str_no_strap : List ℕ
str_no_strap = 0x2d ∷ 0x6e ∷ 0x6f ∷ 0x5f ∷ 0x73 ∷ 0x74 ∷ 0x72 ∷ 0x61 ∷ 0x70 ∷ []

-- "thpri="
abbrev pub str_thpri : List ℕ
str_thpri = 0x74 ∷ 0x68 ∷ 0x70 ∷ 0x72 ∷ 0x69 ∷ 0x3d ∷ []

-- "thstack="
abbrev pub str_thstack : List ℕ
str_thstack = 0x74 ∷ 0x68 ∷ 0x73 ∷ 0x74 ∷ 0x61 ∷ 0x63 ∷ 0x6b ∷ 0x3d ∷ []

-- "KB"
abbrev pub str_kb : List ℕ
str_kb = 0x4b ∷ 0x42 ∷ []

-- `strcmp(a, b)==0`
unfoldable pub streq : List ℕ → List ℕ → Bool
streq [] [] = true
streq [] (y ∷ ys) = false
streq (x ∷ xs) [] = false
streq (x ∷ xs) (y ∷ ys) = let rest = streq xs ys in if x == y then rest else false

-- `strncmp(prefix, str, n)==0` for a prefix of `n` characters: the rest of the string behind it.
unfoldable pub behind : List ℕ → List ℕ → Option (List ℕ)
behind [] str = some str
behind (p ∷ ps) [] = none
behind (p ∷ ps) (c ∷ cs) = let rest = behind ps cs in if p == c then rest else none

abbrev pub isdigit : ℕ → Bool
isdigit c = leb 0x30 c && leb c 0x39

-- `isdigit(CmdString[0])`
unfoldable pub starts_with_digit : List ℕ → Bool
starts_with_digit [] = false
starts_with_digit (c ∷ cs) = isdigit c

-- `while(isdigit(*CmdString)) CmdString++;`
unfoldable pub skip_digits : List ℕ → List ℕ
skip_digits [] = []
skip_digits (c ∷ cs) = let rest = skip_digits cs in if isdigit c then rest else c ∷ cs

-- The static variables that the arguments set.
pub record Settings : Type 0 where
  pub thread_priority : ℕ
  pub thread_stack_size : ℕ
  pub enable_verbose_output : ℕ
  pub enable_auto_negotiation : ℕ
  pub enable_pin_strap_config : ℕ
  pub smap_configuration : ℕ

-- What an argument leads to: the return of `DisplayHelpMessage` or of `DisplayBanner`, or the next one.
pub data Parsed : Type 0 where
  help banner : Parsed
  go_on : Settings → Parsed

unfoldable pub parse_conf : List ℕ → Settings → Parsed
parse_conf arg s = elim (parse_smap_configuration arg) [
  | none ↦ help
  | some n ↦ go_on (record s { smap_configuration = n })
]

-- The code of a check that fails, or what `initialize` returns.
unfoldable pub started : ℤ → ℤ → ℤ
started initialize (pos zero) = initialize
started initialize (pos (suc n)) = pos (suc n)
started initialize (negsuc n) = negsuc n

module _ (strtoul : List ℕ → ℕ) where
  -- `thpri=`, from the number on.
  unfoldable pub parse_thpri : List ℕ → Settings → Parsed
  parse_thpri cmd s =
      let n = u32 (strtoul cmd) in
      if starts_with_digit cmd
      then (if leb 0x73 (sub32 n 9)
          then help
          else if streq (skip_digits cmd) []
          then go_on (record s { thread_priority = n })
          else help)
      else help

  -- `thstack=`, from the number on; what stands behind it is looked at, but not refused.
  unfoldable pub parse_thstack : List ℕ → Settings → Parsed
  parse_thstack cmd s =
      let n = u32 (strtoul cmd) in
      if starts_with_digit cmd
      then (if streq (skip_digits cmd) str_kb
          then go_on (record s { thread_stack_size = u32 (n * 2 ^ 10) })
          else go_on (record s { thread_stack_size = n }))
      else help

  -- The last three branches.
  unfoldable pub parse_value : List ℕ → Settings → Parsed
  parse_value arg s = elim (behind str_thpri arg) [
    | some cmd ↦ parse_thpri cmd s
    | none ↦ elim (behind str_thstack arg) [
      | some cmd ↦ parse_thstack cmd s
      | none ↦ parse_conf arg s
    ]
  ]

  unfoldable pub parse_argument : List ℕ → Settings → Parsed
  parse_argument arg s =
      if streq str_help arg
      then help
      else if streq str_version arg
      then banner
      else if streq str_verbose arg
      then go_on (record s { enable_verbose_output = 1 })
      else if streq str_auto arg
      then go_on (record s { enable_auto_negotiation = 1 })
      else if streq str_no_auto arg
      then go_on (record s { enable_auto_negotiation = 0 })
      else if streq str_strap arg
      then go_on (record s { enable_pin_strap_config = 1 })
      else if streq str_no_strap arg
      then go_on (record s { enable_pin_strap_config = 0 })
      else parse_value arg s

  -- The loop.
  unfoldable pub parse_arguments : List (List ℕ) → Settings → Parsed
  parse_arguments [] s = go_on s
  parse_arguments (arg ∷ args) s = elim (parse_argument arg s) [
    | help ↦ help
    | banner ↦ banner
    | go_on s' ↦ parse_arguments args s'
  ]

  -- `smap_init`: its result, and the settings where the arguments are accepted. `no_resident_end` is
  -- MODULE_NO_RESIDENT_END, and `initialize` what the call at the end returns.
  unfoldable pub smap_init :
      (no_resident_end initialize : ℤ) (caps : ℕ)
      → Device
      → List (List ℕ)
      → Settings
      → ℤ × Option Settings
  smap_init no_resident_end initialize caps d args s = elim (parse_arguments args s) [
    | help ↦ (pos 2, none)
    | banner ↦ (no_resident_end, none)
    | go_on s' ↦ (started initialize (check_device caps d), some s')
  ]
