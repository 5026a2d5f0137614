-- ===== src/Net/Tests.antt =====
-- Byte order and address macros at concrete values.
use ps2eth.Prelude.{◌≡◌, refl}
use ps2eth.Net.{htons, htonl}

swaps : (htons 0x0806 ≡ 0x0608) × (htonl 0x0102_0304 ≡ 0x0403_0201)
unfolding htons htonl
swaps = (refl, refl)
