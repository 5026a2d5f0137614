-- ===== src/Klsi/Inet.antt =====
-- ps2klsi/driver.c, `inet_addr`: an address from its dotted form. A string is the list of its
-- characters before the terminating zero.
pub mod Dotted
mod Tests
use ps2eth.Prelude.{
  ℕ, zero, suc, ◌+◌, ◌-◌, ◌*◌, ◌^◌, bit_or, Bool, ◌&&◌, ◌||◌, Option, none, some, List, [], ◌∷◌,
  ◌==◌, ltb, leb, if◌then◌else◌,
}
use ps2eth.Net.{u32}

-- `(c >= '0') && (c <= '9')`
abbrev pub is_digit : ℕ → Bool
is_digit c = leb 0x30 c && leb c 0x39

-- `address | val << (part * 8)`
abbrev pub add_part : ℕ → ℕ → ℕ → ℕ
add_part address val part = bit_or address (u32 (val * 2 ^ (part * 8)))

-- The loop, with fuel: `none` where the fuel ends. A character that is neither a digit nor '.', 0x2e,
-- is looked at again.
unfoldable pub inet_loop : ℕ → List ℕ → ℕ → ℕ → ℕ → Option ℕ
inet_loop zero cp val part address = none
inet_loop (suc n) [] val part address = some (add_part address val part)
inet_loop (suc n) (c ∷ cs) val part address =
    let digit = inet_loop n cs (u32 (u32 (val * 10) + (c - 0x30))) part address in
    let dot = inet_loop n cs 0 (part + 1) (add_part address val part) in
    let same = inet_loop n (c ∷ cs) val part address in
    if is_digit c
    then digit
    else if c == 0x2e
    then (if leb 3 part || ltb 255 val then some 0xffff_ffff else dot)
    else same

unfoldable pub inet_addr : ℕ → List ℕ → Option ℕ
inet_addr fuel str = inet_loop fuel str 0 0 0
