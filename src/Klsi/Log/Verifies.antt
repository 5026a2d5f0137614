-- ===== src/Klsi/Log/Verifies.antt =====
-- ps2klsi/driver.c: a receiver accepts the two checksums of the packets that `udp_log` sends.
use ps2eth.Prelude.{ℕ, ◌+◌, ◌/◌, ◌%◌, ◌<◌, ◌≡◌, List, [], ◌∷◌, ◌++◌, arith, length}
use ps2eth.Packet.Wire.{le32}
use ps2eth.Klsi.Log.{udp_header, overflow, udp_log, ip_src, ip_dst}
use ps2eth.Klsi.Log.Sums.{word_sum, Folded}

-- A sum that a receiver accepts: it folds to the 16-bit number of ones.
abbrev pub Accepted : ℕ → Type 0
Accepted n = Folded n 0xffff

-- The pseudo-header of RFC 768: the addresses, the protocol and the length of the datagram.
pub pseudo_header : ℕ → List ℕ
pseudo_header n = le32 ip_src ++ (le32 ip_dst ++ (0 ∷ 17 ∷ n / 256 % 256 ∷ n % 256 ∷ []))

-- The sum over the UDP datagram, its checksum being `c`, and the pseudo-header.
abbrev pub datagram_sum : ℕ → List ℕ → ℕ
datagram_sum c log =
    word_sum (udp_header (length log) c ++ log) + word_sum (pseudo_header (length log + 8))

-- A longer message is copied past the end of `udp_buffer`.
pub udp_log-overflow :
    (level fuel : ℕ) (log : List ℕ)
    → 0 < level
    → 979 < length log
    → udp_log fuel level log ≡ overflow
unfolding udp_log
udp_log-overflow level fuel log on h = ground (arith, on, h)
