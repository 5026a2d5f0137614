-- ===== src/Smap/Phy/Registers.antt =====
-- smap/smap.c: `_smap_write_phy` and `_smap_read_phy`, which reach the PHY through one register of the
-- EMAC. `sta k` is what that register reads for the `k`-th time.
use ps2eth.Prelude.{ℕ, zero, suc, ◌+◌, ◌*◌, ◌/◌, ◌^◌, bit_and, bit_or, not, leb, if◌then◌else◌}
use ps2eth.Net.{u16}
use ps2eth.Smap.Regs.{has}

abbrev pub phy_op_comp : ℕ
phy_op_comp = 2 ^ 15

abbrev pub phy_addr : ℕ
phy_addr = bit_and 0x1 0x1F * 2 ^ 5

-- What is written to the register for a read and for a write.
unfoldable pub read_command : ℕ → ℕ
read_command address = bit_or (bit_or (bit_and address 0x1F) (2 ^ 12)) phy_addr

unfoldable pub write_command : ℕ → ℕ → ℕ
write_command address value =
    bit_or (bit_or (bit_or (bit_and address 0x1F) (2 * 2 ^ 12)) phy_addr) (value * 2 ^ 16)

-- The loop of `_smap_write_phy` from `i` on, with fuel: the `i` that it ends with.
unfoldable pub write_loop : (sta : ℕ → ℕ) → ℕ → ℕ → ℕ
write_loop sta zero i = i
write_loop sta (suc n) i =
    let rest = write_loop sta n (i + 1) in
    if not (has (sta i) phy_op_comp) then (if leb 100 i then i else rest) else i

unfoldable pub smap_write_phy : (sta : ℕ → ℕ) → ℕ
smap_write_phy sta = write_loop sta 101 0

-- The loop of `_smap_read_phy`, with `n` rounds left, at the `k`-th access: three reads in a row must find
-- the operation complete.
unfoldable pub read_loop : (sta : ℕ → ℕ) → ℕ → ℕ → ℕ
read_loop sta zero k = 0
read_loop sta (suc n) k =
    let after1 = read_loop sta n (k + 1) in
    let after2 = read_loop sta n (k + 2) in
    let after3 = read_loop sta n (k + 3) in
    if has (sta k) phy_op_comp
    then (if has (sta (k + 1)) phy_op_comp
        then (if has (sta (k + 2)) phy_op_comp then u16 (sta (k + 2) / 2 ^ 16) else after3)
        else after2)
    else after1

unfoldable pub smap_read_phy : (sta : ℕ → ℕ) → ℕ
smap_read_phy sta = read_loop sta 100 0
