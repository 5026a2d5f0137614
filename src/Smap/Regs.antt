-- ===== src/Smap/Regs.antt =====
-- The bits of the SMAP buffer descriptors and the sizes of its rings, as smap-linux/smap.c defines them.
-- smap/ takes the same names from a header of the SDK, for the same device.
use ps2eth.Prelude.{ℕ, ◌*◌, ◌^◌, bit_and, bit_or, Bool, not, List, [], ◌∷◌, ◌==◌}

abbrev pub bd_max_entry : ℕ
bd_max_entry = 64

abbrev pub tx_base : ℕ
tx_base = 0x1000

abbrev pub tx_bufsize : ℕ
tx_bufsize = 4 * 1024

abbrev pub tx_ready : ℕ
tx_ready = 2 ^ 15

abbrev pub tx_genfcs : ℕ
tx_genfcs = 2 ^ 9

abbrev pub tx_genpad : ℕ
tx_genpad = 2 ^ 8

abbrev pub tx_losscr : ℕ
tx_losscr = 2 ^ 7

abbrev pub tx_edefer : ℕ
tx_edefer = 2 ^ 6

abbrev pub tx_ecoll : ℕ
tx_ecoll = 2 ^ 5

abbrev pub tx_lcoll : ℕ
tx_lcoll = 2 ^ 4

abbrev pub tx_mcoll : ℕ
tx_mcoll = 2 ^ 3

abbrev pub tx_scoll : ℕ
tx_scoll = 2 ^ 2

abbrev pub tx_underrun : ℕ
tx_underrun = 2 ^ 1

abbrev pub rx_empty : ℕ
rx_empty = 2 ^ 15

abbrev pub rx_overrun : ℕ
rx_overrun = 2 ^ 9

abbrev pub rx_runtfrm : ℕ
rx_runtfrm = 2 ^ 6

abbrev pub rx_shortevnt : ℕ
rx_shortevnt = 2 ^ 5

abbrev pub rx_alignerr : ℕ
rx_alignerr = 2 ^ 4

abbrev pub rx_badfcs : ℕ
rx_badfcs = 2 ^ 3

abbrev pub rx_frmtoolong : ℕ
rx_frmtoolong = 2 ^ 2

abbrev pub rx_outrange : ℕ
rx_outrange = 2 ^ 1

abbrev pub rx_inrange : ℕ
rx_inrange = 2 ^ 0

-- `a | b | ...`
unfoldable pub flags : List ℕ → ℕ
flags [] = 0
flags (f ∷ fs) = bit_or f (flags fs)

-- `ctrl_stat & mask`, as a condition.
abbrev pub has : ℕ → ℕ → Bool
has ctrl_stat mask = not (bit_and ctrl_stat mask == 0)
