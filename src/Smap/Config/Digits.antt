-- ===== src/Smap/Config/Digits.antt =====
-- smap/smap.c, `ParseSmapConfiguration`: the numbers that it reads.
use ps2eth.Prelude.{
  ℕ, ◌+◌, ◌*◌, ◌%◌, ◌^◌, ◌≤◌, ◌<◌, ◌≡◌, refl, ap, ◌∙◌, true, false, none, some, List, [], ◌∷◌, ◌++◌,
  map, All, arith, ◌==◌, ltb, leb, Bool-cases, inl, inr, ◌⊎◌,
}
use ps2eth.Net.{u32}
use ps2eth.Smap.Config.{sub32, digit_value, scan_digits, scan_number, parse_smap_configuration}

-- The number that decimal digits stand for in a base, read from the left after `acc`.
unfoldable pub number : ℕ → ℕ → List ℕ → ℕ
number base acc [] = acc
number base acc (d ∷ ds) = number base (acc * base + d) ds

unfoldable pub characters : List ℕ → List ℕ
characters ds = map (λ d. 0x30 + d) ds

unfoldable pub AreDecimal : List ℕ → Type 0
AreDecimal ds = All (λ d. d < 10) ds

pub number-u32 :
    (base acc acc' : ℕ) (ds : List ℕ)
    → acc % 2 ^ 32 ≡ acc' % 2 ^ 32
    → (base ≡ 10) ⊎ (base ≡ 16)
    → number base acc ds % 2 ^ 32 ≡ number base acc' ds % 2 ^ 32
unfolding number
number-u32 base acc acc' [] e b = e
number-u32 base acc acc' (d ∷ ds) e (inl b) =
    number-u32 base (acc * base + d) (acc' * base + d) ds (rw b (omega arith)) (inl b)
number-u32 base acc acc' (d ∷ ds) e (inr b) =
    number-u32 base (acc * base + d) (acc' * base + d) ds (rw b (omega arith)) (inr b)

digit_value-decimal : (d : ℕ) → d < 10 → digit_value (0x30 + d) ≡ some d
unfolding digit_value
digit_value-decimal d h = ground arith

scan_digits-number :
    (base acc : ℕ) (ds : List ℕ)
    → (base ≡ 10) ⊎ (base ≡ 16)
    → acc < 2 ^ 32
    → AreDecimal ds
    → scan_digits base acc (characters ds) ≡ some (u32 (number base acc ds))
unfolding scan_digits number characters AreDecimal
scan_digits-number base acc [] b h a = ap some (omega arith)
scan_digits-number base acc (d ∷ ds) b h a =
    let small : leb base d ≡ false = elim b [
      | inl e ↦ rw e (ground (arith, a.0))
      | inr e ↦ rw e (ground (arith, a.0))
    ] in
    let next = u32 (u32 (acc * base) + d) in
    rw (scan_digits, digit_value-decimal d a.0, small)
      (scan_digits-number base next ds b (omega arith) a.1
        ∙ ap some (number-u32 base next (acc * base + d) ds (omega arith) b))

-- The value of a decimal string, by its digits: leading zeros count for nothing, and the value wraps
-- around at 32 bits.
pub parse_smap_configuration-decimal :
    (d : ℕ) (ds : List ℕ)
    → AreDecimal (d ∷ ds)
    → parse_smap_configuration (characters (d ∷ ds)) ≡ some (u32 (number 10 0 (d ∷ ds)))
unfolding parse_smap_configuration scan_number characters number AreDecimal
parse_smap_configuration-decimal d [] a =
    scan_digits-number 10 0 (d ∷ []) (inl refl) (omega arith) a
parse_smap_configuration-decimal d (d' ∷ ds) a = elim (Bool-cases (0x30 + d == 0x30)) [
  | inr e ↦
      rw (parse_smap_configuration, e)
        (scan_digits-number 10 0 (d ∷ (d' ∷ ds)) (inl refl) (omega arith) a)
  | inl e ↦
      let zero_first : d ≡ 0 = ground arith in
      let no_x : (0x30 + d' == 0x78) ≡ false = ground (arith, a.1.0) in
      let same : number 10 0 (d' ∷ ds) ≡ number 10 0 (d ∷ (d' ∷ ds)) = rw zero_first refl in
      rw (parse_smap_configuration, e, no_x)
        (scan_digits-number 10 0 (d' ∷ ds) (inl refl) (omega arith) a.1
          ∙ ap (λ n. some (u32 n)) same)
]

-- A string of `0x` and decimal digits, by its digits in base 16.
pub parse_smap_configuration-hex :
    (d : ℕ) (ds : List ℕ)
    → AreDecimal (d ∷ ds)
    → parse_smap_configuration (0x30 ∷ (0x78 ∷ characters (d ∷ ds)))
      ≡ some (u32 (number 16 0 (d ∷ ds)))
unfolding parse_smap_configuration scan_number characters
parse_smap_configuration-hex d ds a = scan_digits-number 16 0 (d ∷ ds) (inr refl) (omega arith) a

letter_refused :
    (acc l : ℕ) (rest : List ℕ) → 0x61 ≤ l → l ≤ 0x66 → scan_digits 16 acc (l ∷ rest) ≡ none
unfolding scan_digits digit_value
letter_refused acc l rest lo hi =
    let not_digit : ltb (sub32 l 0x30) 10 ≡ false = ground arith in
    let letter : ltb (sub32 l 0x61) 6 ≡ true = ground arith in
    let large : leb 16 (sub32 (sub32 l 0x61) 0x57) ≡ true = ground arith in
    rw (scan_digits, digit_value, not_digit, letter, large) refl

scan_digits-letter :
    (acc l : ℕ) (ds rest : List ℕ)
    → AreDecimal ds
    → 0x61 ≤ l
    → l ≤ 0x66
    → scan_digits 16 acc (characters ds ++ (l ∷ rest)) ≡ none
unfolding scan_digits characters AreDecimal
scan_digits-letter acc l [] rest a lo hi = letter_refused acc l rest lo hi
scan_digits-letter acc l (d ∷ ds) rest a lo hi =
    let small : leb 16 d ≡ false = ground (arith, a.0) in
    rw (scan_digits, digit_value-decimal d a.0, small)
      (scan_digits-letter (u32 (u32 (acc * 16) + d)) l ds rest a.1 lo hi)

-- A string of `0x`, decimal digits, and a letter from 'a' to 'f' is refused, whatever follows: the
-- source subtracts both 'a' and 0x57 from the letter, and the difference wraps around.
pub parse_smap_configuration-letter :
    (l : ℕ) (ds rest : List ℕ)
    → AreDecimal ds
    → 0x61 ≤ l
    → l ≤ 0x66
    → parse_smap_configuration (0x30 ∷ (0x78 ∷ (characters ds ++ (l ∷ rest)))) ≡ none
unfolding parse_smap_configuration scan_number characters
parse_smap_configuration-letter l [] rest a lo hi = letter_refused 0 l rest lo hi
parse_smap_configuration-letter l (d ∷ ds) rest a lo hi =
    scan_digits-letter 0 l (d ∷ ds) rest a lo hi
