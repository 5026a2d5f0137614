-- ===== src/Linux/Media.antt =====
-- smap-linux/smap.c: the bits of PHYSTS and SMAP_EMAC3_MODE1, and the tests on what `ReadPhy` returns, with
-- `none` for -1.
use ps2eth.Prelude.{
  ℕ, ◌-◌, ◌*◌, ◌^◌, bit_and, bit_or, Bool, not, Option, none, some, ◌==◌, if◌then◌else◌,
}
use ps2eth.Smap.Regs.{has}
use ps2eth.Smap.Phy.Modes.{e3_fdx_enable, e3_flow_control}

abbrev pub physts : ℕ
physts = 0x10

abbrev pub sts_ancp : ℕ
sts_ancp = 2 ^ 4

abbrev pub sts_fdx : ℕ
sts_fdx = 2 ^ 2

abbrev pub sts_10m : ℕ
sts_10m = 2 ^ 1

abbrev pub sts_link : ℕ
sts_link = 2 ^ 0

abbrev pub e3_ignore_sqe : ℕ
e3_ignore_sqe = 2 ^ 24

abbrev pub e3_media_10m : ℕ
e3_media_10m = 0

abbrev pub e3_media_100m : ℕ
e3_media_100m = 2 ^ 22

abbrev pub e3_media_msk : ℕ
e3_media_msk = 3 * 2 ^ 22

-- `v&mask` as a condition: the bits of -1 are all set.
unfoldable pub tests : ℕ → Option ℕ → Bool
tests mask none = not (mask == 0)
tests mask (some v) = has v mask

-- `v&=~mask` on 32 bits.
unfoldable pub clear : ℕ → ℕ → ℕ
clear mask v = bit_and v (2 ^ 32 - 1 - mask)

-- SMAP_EMAC3_MODE1 for the speed and the duplex mode of PHYSTS.
unfoldable pub negotiated_mode1 : Option ℕ → ℕ → ℕ
negotiated_mode1 val v0 =
    let full = bit_or e3_fdx_enable e3_flow_control in
    let half = clear full v0 in
    let v1 =
      if tests sts_fdx val
      then bit_or v0 full
      else (if tests sts_10m val then clear e3_ignore_sqe half else half) in
    let v2 = clear e3_media_msk v1 in
    bit_or v2 (if tests sts_10m val then e3_media_10m else e3_media_100m)

-- `(v&mask)==value`
unfoldable pub equals : (mask value : ℕ) → Option ℕ → Bool
equals mask value none = mask == value
equals mask value (some v) = bit_and v mask == value
