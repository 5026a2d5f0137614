-- ===== src/Smap/Config.antt =====
-- smap/smap.c, `ParseSmapConfiguration`: the number in an argument of the module. A string is the list
-- of its characters before the terminating zero.
pub mod Digits
use ps2eth.Prelude.{
  ℕ, zero, suc, ◌+◌, ◌-◌, ◌*◌, ◌%◌, ◌^◌, Option, none, some, List, [], ◌∷◌, ◌==◌, ltb, leb,
  if◌then◌else◌,
}
use ps2eth.Net.{u32}

-- `a - b` on unsigned ints.
abbrev pub sub32 : ℕ → ℕ → ℕ
sub32 a b = u32 (a + (2 ^ 32 - b))

-- The value of a character, with the tests and the subtractions of the source; '0' is 0x30 and 'a' is
-- 0x61.
unfoldable pub digit_value : ℕ → Option ℕ
digit_value character =
    if ltb (sub32 character 0x30) 10
    then some (sub32 character 0x30)
    else if ltb (sub32 character 0x61) 6
    then some (sub32 (sub32 character 0x61) 0x57)
    else none

-- The do-while loop: the digits from here on, in the given base. `none` is `fail_end`.
unfoldable pub scan_digits : ℕ → ℕ → List ℕ → Option ℕ
scan_digits base result [] = some result
scan_digits base result (character ∷ rest) = elim (digit_value character) [
  | none ↦ none
  | some value ↦
      let end = scan_digits base (u32 (u32 (result * base) + value)) rest in
      if leb base value then none else end
]

-- `DigitStart[0]=='\0'` fails.
unfoldable pub scan_number : ℕ → List ℕ → Option ℕ
scan_number base [] = none
scan_number base (c ∷ cs) = scan_digits base 0 (c ∷ cs)

-- The base is chosen by the first two characters; 'x' is 0x78.
unfoldable pub parse_smap_configuration : List ℕ → Option ℕ
parse_smap_configuration [] = scan_number 10 []
parse_smap_configuration (c ∷ []) = scan_number 10 (c ∷ [])
parse_smap_configuration (c ∷ (d ∷ cs)) =
    if c == 0x30
    then (if d == 0x78 then scan_number 16 cs else scan_number 10 (d ∷ cs))
    else scan_number 10 (c ∷ (d ∷ cs))
