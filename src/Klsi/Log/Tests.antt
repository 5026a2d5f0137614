-- ===== src/Klsi/Log/Tests.antt =====
-- ps2klsi/driver.c: the theorems on the log at concrete messages.
use ps2eth.Prelude.{ℕ, List, [], ◌∷◌}

-- "Hello"
abbrev hello : List ℕ
hello = 0x48 ∷ 0x65 ∷ 0x6c ∷ 0x6c ∷ 0x6f ∷ []
