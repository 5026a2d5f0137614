-- ===== src/Klsi/Inet/Tests.antt =====
-- ps2klsi/driver.c: the theorems on `inet_addr` at concrete strings.
use ps2eth.Prelude.{◌≡◌, refl, none, [], ◌∷◌, ◌++◌, arith}
use ps2eth.Smap.Config.Digits.{characters, AreDecimal}
use ps2eth.Klsi.Inet.{inet_addr}
use ps2eth.Klsi.Inet.Dotted.{spend, inet_addr-stuck}

-- "1a"
inet_addr-stuck_example : inet_addr (spend (1 ∷ []) 100) (characters (1 ∷ []) ++ (0x61 ∷ [])) ≡ none
unfolding AreDecimal
inet_addr-stuck_example = inet_addr-stuck (1 ∷ []) [] 0x61 100 (omega arith, tt) refl refl
