-- ===== src/Linux/Eeprom.antt =====
-- smap-linux/smap.c: the EEPROM behind three bits of a port, from the clock to `GetNodeAddr`. The EEPROM is
-- an argument: what a write of the port does to it, and the bit that it shows. Delays and messages are left
-- out.
pub mod Serial
mod Tests
use ps2eth.Prelude.{
  ℕ, zero, suc, ◌+◌, ◌*◌, ◌/◌, ◌%◌, ◌^◌, bit_and, bit_or, Bool, true, false, not, List, [], ◌∷◌,
  ◌==◌, if◌then◌else◌, ℤ, pos, negsuc,
}
use ps2eth.Net.{u8, u16}
use ps2eth.Smap.Regs.{has}

-- The bits PP_DIN, PP_SCLK and PP_CSEL of `u8PPWC`.
pub record Ppwc : Type 0 where
  pub din : Bool
  pub sclk : Bool
  pub csel : Bool

abbrev pub pp_op_read : ℕ
pp_op_read = 2

-- `u16Sum!=u16CHKSum` over the three words of the address.
unfoldable pub sum_words : List ℕ → ℕ → ℕ
sum_words [] sum = sum
sum_words (w ∷ ws) sum = sum_words ws (u16 (sum + w))

-- The result of `GetNodeAddr`, and the three words of `au8HWAddr`.
unfoldable pub node_addr : (mac : List ℕ) → (chksum : ℕ) → ℤ × List ℕ
node_addr mac chksum =
    if sum_words mac 0 == chksum then (pos 0, mac) else (negsuc 0, 0 ∷ 0 ∷ 0 ∷ [])

module _ (State : Type 0) (write : Ppwc → State → State) (q : State → Bool) where
  -- `u8PPWC`, and the EEPROM.
  pub record Wire : Type 0 where
    pub ppwc : Ppwc
    pub chip : State

  -- `SMAP_PP_SET_D` and `SMAP_PP_SET_S` write no port.
  unfoldable pub set_d : Bool → Wire → Wire
  set_d v w = record w { ppwc = record (w.ppwc) { din = v } }

  unfoldable pub set_s : Bool → Wire → Wire
  set_s v w = record w { ppwc = record (w.ppwc) { csel = v } }

  unfoldable pub clk_out : Bool → Wire → Wire
  clk_out v w = let p = record (w.ppwc) { sclk = v } in record { ppwc = p; chip = write p w.chip }

  -- `SMAP_PP_GET_Q`
  unfoldable pub get_q : Wire → ℕ
  get_q w = if q w.chip then 1 else 0

  unfoldable pub clock_data_out : Bool → Wire → Wire
  clock_data_out val w = clk_out false (clk_out true (clk_out false (set_d val w)))

  unfoldable pub clock_data_in : Wire → ℕ × Wire
  clock_data_in w =
      let w1 = clk_out true (clk_out false (set_d false w)) in (get_q w1, clk_out false w1)

  -- The loop of `EEPROMPutAddr`, with `n` bits left.
  unfoldable pub addr_loop : ℕ → ℕ → Wire → Wire
  addr_loop zero a w = w
  addr_loop (suc n) a w = addr_loop n (u8 (a * 2)) (clock_data_out (has a 0x20) w)

  unfoldable pub put_addr : ℕ → Wire → Wire
  put_addr a w = addr_loop 6 (bit_and a 0x3F) w

  -- The loop of `GetDataFromEEPROM`, with `n` bits left.
  unfoldable pub data_loop : ℕ → ℕ → Wire → ℕ × Wire
  data_loop zero d w = (d, w)
  data_loop (suc n) d w = let r = clock_data_in w in data_loop n (bit_or (u16 (d * 2)) r.0) r.1

  unfoldable pub get_data : Wire → ℕ × Wire
  get_data w = data_loop 16 0 w

  unfoldable pub start_op : ℕ → Wire → Wire
  start_op op w =
      let w1 = clk_out false (set_d false (set_s false w)) in
      let w2 = clk_out false (set_d false (set_s true w1)) in
      clock_data_out (has op 1) (clock_data_out (has (op / 2) 1) (clock_data_out true w2))

  unfoldable pub cs_low : Wire → Wire
  cs_low w = clk_out false (set_d false (set_s false w))

  unfoldable pub get_words : ℕ → Wire → List ℕ × Wire
  get_words zero w = ([], w)
  get_words (suc n) w = let r = get_data w in let rest = get_words n r.1 in (r.0 ∷ rest.0, rest.1)

  -- `ReadEEPROMExec`
  unfoldable pub read_eeprom : ℕ → ℕ → Wire → List ℕ × Wire
  read_eeprom a n w = let r = get_words n (put_addr a (start_op pp_op_read w)) in (r.0, cs_low r.1)

  -- The first of the words, or 0.
  abbrev pub first_word : List ℕ → ℕ
  first_word [] = 0
  first_word (x ∷ xs) = x

  -- `GetNodeAddr`
  unfoldable pub get_node_addr : Wire → (ℤ × List ℕ) × Wire
  get_node_addr w =
      let r = read_eeprom 0 3 w in
      let c = read_eeprom 3 1 r.1 in (node_addr r.0 (first_word c.0), c.1)
