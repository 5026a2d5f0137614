-- ===== src/Klsi/Inet/Dotted.antt =====
-- ps2klsi/driver.c, `inet_addr`: dotted addresses, and the strings on which it does not end.
use ps2eth.Prelude.{
  ℕ, zero, suc, ◌+◌, ◌-◌, ◌*◌, ◌^◌, ◌≤◌, ◌<◌, ◌≡◌, refl, ap, ◌∙◌, true, false, ◌||◌, none, some,
  List, [], ◌∷◌, ◌++◌, arith, ◌==◌, ltb, leb, inl, bit_or, bit_or_comm, bit_or_fields,
}
use ps2eth.Net.{u32}
use ps2eth.Smap.Config.Digits.{number, characters, AreDecimal, number-u32}
use ps2eth.Klsi.Inet.{is_digit, add_part, inet_loop, inet_addr}

-- The fuel for some characters and more.
unfoldable pub spend : List ℕ → ℕ → ℕ
spend [] n = n
spend (d ∷ ds) n = suc (spend ds n)

inet_loop-digits :
    (ds rest : List ℕ) (n val part address : ℕ)
    → AreDecimal ds
    → val < 2 ^ 32
    → inet_loop (spend ds n) (characters ds ++ rest) val part address
      ≡ inet_loop n rest (u32 (number 10 val ds)) part address
unfolding inet_loop spend characters number AreDecimal
inet_loop-digits [] rest n val part address a h =
    ap (λ v. inet_loop n rest v part address) (omega arith)
inet_loop-digits (d ∷ ds) rest n val part address a h =
    let digit : is_digit (0x30 + d) ≡ true = ground (arith, a.0) in
    let value : (0x30 + d) - 0x30 ≡ d = omega arith in
    let v = u32 (u32 (val * 10) + d) in
    rw (inet_loop, digit, value)
      (inet_loop-digits ds rest n v part address a.1 (omega arith)
        ∙ ap (λ w. inet_loop n rest w part address)
            (number-u32 10 v (val * 10 + d) ds (omega arith) (inl refl)))

inet_loop-stuck :
    (n c : ℕ) (cs : List ℕ) (val part address : ℕ)
    → is_digit c ≡ false
    → (c == 0x2e) ≡ false
    → inet_loop n (c ∷ cs) val part address ≡ none
unfolding inet_loop
inet_loop-stuck zero c cs val part address d e = refl
inet_loop-stuck (suc n) c cs val part address d e =
    rw (inet_loop, d, e) (inet_loop-stuck n c cs val part address d e)

-- After decimal digits, a character that is neither a digit nor a dot is looked at for ever: with fuel
-- for the digits and however many rounds more, there is no result.
pub inet_addr-stuck :
    (ds cs : List ℕ) (c n : ℕ)
    → AreDecimal ds
    → is_digit c ≡ false
    → (c == 0x2e) ≡ false
    → inet_addr (spend ds n) (characters ds ++ (c ∷ cs)) ≡ none
unfolding inet_addr
inet_addr-stuck ds cs c n a d e =
    inet_loop-digits ds (c ∷ cs) n 0 0 0 a (omega arith)
    ∙ inet_loop-stuck n c cs (u32 (number 10 0 ds)) 0 0 d e

inet_loop-dot :
    (n val part address : ℕ) (cs : List ℕ)
    → part < 3
    → val ≤ 255
    → inet_loop (suc n) (0x2e ∷ cs) val part address
      ≡ inet_loop n cs 0 (part + 1) (add_part address val part)
unfolding inet_loop
inet_loop-dot n val part address cs p v =
    let early : (leb 3 part || ltb 255 val) ≡ false = ground arith in rw (inet_loop, early) refl

-- A part and its dot: the part's value is added to the address.
inet_loop-part :
    (ds rest : List ℕ) (n part address : ℕ)
    → AreDecimal ds
    → number 10 0 ds ≤ 255
    → part < 3
    → inet_loop (spend ds (suc n)) (characters ds ++ (0x2e ∷ rest)) 0 part address
      ≡ inet_loop n rest 0 (part + 1) (add_part address (number 10 0 ds) part)
inet_loop-part ds rest n part address a v p =
    let value : u32 (number 10 0 ds) ≡ number 10 0 ds = omega arith in
    inet_loop-digits ds (0x2e ∷ rest) (suc n) 0 part address a (omega arith)
    ∙ ap (λ w. inet_loop (suc n) (0x2e ∷ rest) w part address) value
    ∙ inet_loop-dot n (number 10 0 ds) part address rest p v

low_and_high :
    (k low high : ℕ)
    → low < 2 ^ k
    → high * 2 ^ k < 2 ^ 32
    → bit_or low (u32 (high * 2 ^ k)) ≡ low + high * 2 ^ k
low_and_high k low high hl hh =
    let whole : u32 (high * 2 ^ k) ≡ high * 2 ^ k = omega arith in
    ap (λ n. bit_or low n) whole
    ∙ bit_or_comm low (high * 2 ^ k)
    ∙ bit_or_fields k high low hl
    ∙ omega arith

parts-sum :
    (a b c d : ℕ)
    → a ≤ 255
    → b ≤ 255
    → c ≤ 255
    → d ≤ 255
    → add_part (add_part (add_part (add_part 0 a 0) b 1) c 2) d 3
      ≡ a + b * 2 ^ 8 + c * 2 ^ 16 + d * 2 ^ 24
parts-sum a b c d ha hb hc hd =
    let e0 : add_part 0 a 0 ≡ a = low_and_high 0 0 a (omega arith) (omega arith) ∙ omega arith in
    let e1 : add_part a b 1 ≡ a + b * 2 ^ 8 = low_and_high 8 a b (omega arith) (omega arith) in
    let s1 = a + b * 2 ^ 8 in
    let e2 : add_part s1 c 2 ≡ s1 + c * 2 ^ 16 = low_and_high 16 s1 c (omega arith) (omega arith) in
    let s2 = s1 + c * 2 ^ 16 in
    let e3 : add_part s2 d 3 ≡ s2 + d * 2 ^ 24 = low_and_high 24 s2 d (omega arith) (omega arith) in
    ap (λ x. add_part (add_part (add_part x b 1) c 2) d 3) e0
    ∙ ap (λ x. add_part (add_part x c 2) d 3) e1
    ∙ ap (λ x. add_part x d 3) e2
    ∙ e3

-- The dotted form of four decimal numbers up to 255 gives the address whose bytes they are, the first
-- one lowest.
pub inet_addr-dotted :
    (a b c d : List ℕ)
    → AreDecimal a
    → AreDecimal b
    → AreDecimal c
    → AreDecimal d
    → number 10 0 a ≤ 255
    → number 10 0 b ≤ 255
    → number 10 0 c ≤ 255
    → number 10 0 d ≤ 255
    → inet_addr (spend a (suc (spend b (suc (spend c (suc (spend d 1))))))) (
        characters a
        ++ (0x2e ∷ (characters b ++ (0x2e ∷ (characters c ++ (0x2e ∷ (characters d ++ [])))))))
      ≡ some
          (number 10 0 a + number 10 0 b * 2 ^ 8 + number 10 0 c * 2 ^ 16 + number 10 0 d * 2 ^ 24)
unfolding inet_addr inet_loop
inet_addr-dotted a b c d da db dc dd ha hb hc hd =
    let value : u32 (number 10 0 d) ≡ number 10 0 d = omega arith in
    let s1 = add_part 0 (number 10 0 a) 0 in
    let s2 = add_part s1 (number 10 0 b) 1 in
    let s3 = add_part s2 (number 10 0 c) 2 in
    inet_loop-part a _ _ 0 0 da ha (omega arith)
    ∙ inet_loop-part b _ _ 1 s1 db hb (omega arith)
    ∙ inet_loop-part c _ _ 2 s2 dc hc (omega arith)
    ∙ inet_loop-digits d [] 1 0 3 s3 dd (omega arith)
    ∙ ap (λ v. some (add_part s3 v 3)) value
    ∙ ap some
        (parts-sum (number 10 0 a) (number 10 0 b) (number 10 0 c) (number 10 0 d) ha hb hc hd)
