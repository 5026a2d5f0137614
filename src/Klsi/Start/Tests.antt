-- ===== src/Klsi/Start/Tests.antt =====
-- ps2klsi/driver.c: the theorem on `_start` for "10.0.0.2", "255.0.0.0" and "10.0.0.1".
use ps2eth.Prelude.{ℕ, ◌≡◌, some, [], ◌∷◌, arith, ◌<◌}
use ps2eth.Smap.Config.Digits.{number, AreDecimal}
use ps2eth.Klsi.Start.{start}
use ps2eth.Klsi.Start.Dotted.{Octet, Dotted, dotted, address, enough, start-dotted}

one_digit : (d : ℕ) → d < 10 → Octet
unfolding number AreDecimal
one_digit d h = record { digits = d ∷ []; decimal = ground (arith, h); small = omega (arith, h) }

full : Octet
unfolding number AreDecimal
full = record { digits = 2 ∷ 5 ∷ 5 ∷ []; decimal = ground arith; small = omega arith }

ten : Octet
unfolding number AreDecimal
ten = record { digits = 1 ∷ 0 ∷ []; decimal = ground arith; small = omega arith }

abbrev zero_digit : Octet
zero_digit = one_digit 0 (omega arith)

abbrev host_address : Dotted
host_address = record { a = ten; b = zero_digit; c = zero_digit; d = one_digit 2 (omega arith) }

abbrev mask_address : Dotted
mask_address = record { a = full; b = zero_digit; c = zero_digit; d = zero_digit }

abbrev gate_address : Dotted
gate_address = record { a = ten; b = zero_digit; c = zero_digit; d = one_digit 1 (omega arith) }

three_addresses :
    start enough
      ((0x6b ∷ []) ∷ dotted host_address ∷ dotted mask_address ∷ dotted gate_address ∷ [])
    ≡ some (record {
      ipaddr = address host_address;
      netmask = address mask_address;
      gw = address gate_address;
    })
three_addresses = start-dotted (0x6b ∷ []) host_address mask_address gate_address
