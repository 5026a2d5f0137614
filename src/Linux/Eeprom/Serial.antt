-- ===== src/Linux/Eeprom/Serial.antt =====
-- smap-linux/smap.c: the words that the bit-serial protocol reads, for an EEPROM that keeps to it.
use ps2eth.Prelude.{
  ℕ, zero, suc, ◌+◌, ◌-◌, ◌*◌, ◌/◌, ◌%◌, ◌^◌, ◌≤◌, ◌<◌, ◌≡◌, refl, sym, ap, ◌∙◌, subst, arith,
  bit_and, bit_or, Bool, true, false, List, [], ◌∷◌, ◌++◌, ◌==◌, if◌then◌else◌, length, pos, negsuc,
  Bool-cases, ap₂, ◌≢◌, ◌⊎◌, ==_ne, bit_or_fields, all_below, at-all_below, inl, inr,
}
use native.Mathlib.Nat.{pow-suc, div-div-eq-div-mul, div-le_self}
use ps2eth.Net.{u8, u16}
use ps2eth.Smap.Regs.{has}
use ps2eth.Linux.Eeprom.{
  Ppwc, Wire, set_d, set_s, clk_out, get_q, clock_data_out, clock_data_in, addr_loop, put_addr,
  data_loop, get_data, start_op, get_words, read_eeprom, get_node_addr, sum_words, node_addr,
  pp_op_read,
}

-- What a selected EEPROM is doing: within a command, or with `k` bits of the word at `a` shown.
pub data Phase : Type 0 where
  command : List Bool → Phase
  reading : ℕ → ℕ → Phase

unfoldable pub address : List Bool → ℕ → ℕ
address [] n = n
address (b ∷ bs) n = address bs (n * 2 + (if b then 1 else 0))

-- The start bit, the code 10 and six bits are the command to read.
unfoldable pub decode : List Bool → Phase
decode (true ∷ true ∷ false ∷ bs) =
    if length bs == 6 then reading (address bs 0) 0 else command (true ∷ true ∷ false ∷ bs)
decode bs = command bs

-- A rising edge of the clock.
unfoldable pub edge : Bool → Phase → Phase
edge d (command bs) = decode (bs ++ (d ∷ []))
edge d (reading a k) = if k == 16 then reading (a + 1) 1 else reading a (k + 1)

-- The bits that `EEPROMPutAddr` sends.
unfoldable sent_bits : ℕ → ℕ → List Bool
sent_bits zero a = []
sent_bits (suc n) a = has a 0x20 ∷ sent_bits n (u8 (a * 2))

address-sent_bits : (a : ℕ) → a < 64 → address (sent_bits 6 (bit_and a 0x3F)) 0 ≡ a
unfolding address sent_bits
address-sent_bits a h =
    let ok : all_below 64 (λ n. address (sent_bits 6 (bit_and n 0x3F)) 0 == n) ≡ true = refl in
    let e = at-all_below 64 (λ n. address (sent_bits 6 (bit_and n 0x3F)) 0 == n) ok a h in
    ground (arith, e)

-- The `n` words from the address `a` on.
unfoldable pub words_from : (ℕ → ℕ) → ℕ → ℕ → List ℕ
words_from mem a zero = []
words_from mem a (suc n) = mem a ∷ words_from mem (a + 1) n

node_addr_cases :
    (x y z c : ℕ)
    → (((x + y + z) % 2 ^ 16 ≡ c) × (node_addr (x ∷ y ∷ z ∷ []) c ≡ (pos 0, x ∷ y ∷ z ∷ [])))
      ⊎ (((x + y + z) % 2 ^ 16 ≢ c) × (node_addr (x ∷ y ∷ z ∷ []) c ≡ (negsuc 0, 0 ∷ 0 ∷ 0 ∷ [])))
unfolding node_addr sum_words
node_addr_cases x y z c =
    let sum : u16 (u16 (u16 (0 + x) + y) + z) ≡ (x + y + z) % 2 ^ 16 = omega arith in
    elim (Bool-cases ((x + y + z) % 2 ^ 16 == c)) [
      | inl e ↦ inl (ground (arith, e), rw (sum, e) refl)
      | inr e ↦ inr ((λ k. ground (arith, e, k)), rw (sum, e) refl)
    ]

edge-reading : (a k : ℕ) → k < 16 → edge false (reading a k) ≡ reading a (k + 1)
unfolding edge
edge-reading a k h = rw (==_ne k 16 (λ e. absurd (omega (arith, e, h)))) refl

-- Another bit goes behind those that are read.
next_bit :
    (m n d r : ℕ)
    → m < 2 ^ 16
    → n < 16
    → d ≡ m / 2 ^ suc n
    → r ≡ m / 2 ^ n % 2
    → bit_or (u16 (d * 2)) r ≡ m / 2 ^ n
next_bit m n d r h l e b =
    let halves : d ≡ m / 2 ^ n / 2 =
      e ∙ ap (λ t. m / t) (pow-suc 2 n) ∙ sym (div-div-eq-div-mul m (2 ^ n) 2) in
    let small : m / 2 ^ n ≤ m = div-le_self m (2 ^ n) in
    let fits : d * 2 % 2 ^ 16 ≡ d * 2 = omega (arith, halves, small, h) in
    rw fits (bit_or_fields 1 d r (omega (arith, b)) ∙ omega (arith, halves, b))

module _ (State : Type 0) (write : Ppwc → State → State) (q : State → Bool) where
  -- An EEPROM with the words `mem`: it shows the bit that is due after a rising edge, from the highest on, and
  -- goes on with the word behind. `Shows x phase high` is its state with the level of the clock.
  pub record IsEeprom (mem : ℕ → ℕ) : Type 1 where
    pub Off : State → Type 0
    pub Shows : State → Phase → Bool → Type 0
    pub fits : (a : ℕ) → mem a < 2 ^ 16
    pub deselected : (p : Ppwc) (x : State) → p.csel ≡ false → p.sclk ≡ false → Off (write p x)
    pub selected :
        (p : Ppwc) (x : State)
        → p.csel ≡ true
        → p.sclk ≡ false
        → Off x
        → Shows (write p x) (command []) false
    pub falls :
        (p : Ppwc) (x : State) (f : Phase) (high : Bool)
        → p.csel ≡ true
        → p.sclk ≡ false
        → Shows x f high
        → Shows (write p x) f false
    pub rises :
        (p : Ppwc) (x : State) (f : Phase)
        → p.csel ≡ true
        → p.sclk ≡ true
        → Shows x f false
        → Shows (write p x) (edge p.din f) true
    pub output :
        (x : State) (a k : ℕ)
        → k < 16
        → Shows x (reading a (k + 1)) true
        → (if q x then 1 else 0) ≡ mem a / 2 ^ (15 - k) % 2

  module _ (mem : ℕ → ℕ) (v : IsEeprom mem) where
    -- Selected, with a low clock.
    record On (w : Wire State write q) (f : Phase) : Type 0 where
      pub select : w.ppwc.csel ≡ true
      pub shows : v.Shows w.chip f false

    clock_data_out-On :
        (val : Bool) (w : Wire State write q) (f : Phase)
        → On w f
        → On (clock_data_out State write q val w) (edge val f)
    unfolding clock_data_out clk_out set_d
    clock_data_out-On val w f o = record {
      select = o.select;
      shows =
          v.falls _ _ _ true o.select refl
            (v.rises _ _ f o.select refl (v.falls _ _ f false o.select refl o.shows));
    }

    start_op-On :
        (w : Wire State write q)
        → On (start_op State write q pp_op_read w) (command (true ∷ true ∷ false ∷ []))
    unfolding start_op clk_out set_d set_s decode edge
    start_op-On w =
        let o : On _ (command []) = record {
          select = refl;
          shows = v.selected _ _ refl refl (v.deselected _ _ refl refl);
        } in
        clock_data_out-On false _ _ (clock_data_out-On true _ _ (clock_data_out-On true _ _ o))

    put_addr-On :
        (a : ℕ) (w : Wire State write q)
        → a < 64
        → On w (command (true ∷ true ∷ false ∷ []))
        → On (put_addr State write q a w) (reading a 0)
    unfolding put_addr addr_loop decode edge sent_bits
    put_addr-On a w h o =
        let e : reading (address (sent_bits 6 (bit_and a 0x3F)) 0) 0 ≡ reading a 0 =
          ap (λ n. reading n 0) (address-sent_bits a h) in
        subst (On _) e (
          clock_data_out-On _ _ _ (
            clock_data_out-On _ _ _ (
              clock_data_out-On _ _ _
                (clock_data_out-On _ _ _ (clock_data_out-On _ _ _ (clock_data_out-On _ _ _ o))))))

    -- The word at `a` is next.
    IsNext : ℕ → Phase → Type 0
    IsNext a f = (d : Bool) → edge d f ≡ reading a 1

    clock_data_in-On :
        (w : Wire State write q) (f : Phase) (a k : ℕ)
        → k < 16
        → edge false f ≡ reading a (k + 1)
        → On w f
        → ((clock_data_in State write q w).0 ≡ mem a / 2 ^ (15 - k) % 2)
          × On (clock_data_in State write q w).1 (reading a (k + 1))
    unfolding clock_data_in clk_out set_d get_q
    clock_data_in-On w f a k h e o =
        let low : Ppwc = record { din = false; sclk = false; csel = w.ppwc.csel } in
        let high : Ppwc = record { din = false; sclk = true; csel = w.ppwc.csel } in
        let s =
          v.rises high (write low w.chip) f o.select refl
            (v.falls low w.chip f false o.select refl o.shows) in
        let s' = subst (λ g. v.Shows (write high (write low w.chip)) g true) e s in
        (
          v.output _ a k h s',
          record { select = o.select; shows = v.falls low _ _ true o.select refl s' },
        )

    data_loop-On :
        (n a k d : ℕ) (w : Wire State write q)
        → n + k ≡ 16
        → d ≡ mem a / 2 ^ n
        → On w (reading a k)
        → ((data_loop State write q n d w).0 ≡ mem a)
          × On (data_loop State write q n d w).1 (reading a 16)
    unfolding data_loop
    data_loop-On zero a k d w h i o = (
      ground (arith, i),
      (let h' : k ≡ 16 = omega (arith, h) in subst (λ j. On w (reading a j)) h' o),
    )
    data_loop-On (suc n) a k d w h i o =
        let c =
          clock_data_in-On w (reading a k) a k (omega (arith, h))
            (edge-reading a k (omega (arith, h))) o in
        data_loop-On n a (k + 1) _ _ (omega (arith, h))
          (next_bit (mem a) n d _ (v.fits a) (omega (arith, h)) i
            (c.0 ∙ ap (λ j. mem a / 2 ^ j % 2) (omega (arith, h))))
          c.1

    -- The sixteen clocks that read the word that is due.
    get_data-On :
        (a : ℕ) (f : Phase) (w : Wire State write q)
        → edge false f ≡ reading a 1
        → On w f
        → ((get_data State write q w).0 ≡ mem a) × On (get_data State write q w).1 (reading a 16)
    unfolding get_data data_loop
    get_data-On a f w e o =
        let c = clock_data_in-On w f a 0 (omega arith) e o in
        data_loop-On 15 a 1 _ _ refl
          (next_bit (mem a) 15 0 _ (v.fits a) (omega arith) (omega (arith, v.fits a)) c.0) c.1

    get_words-eq :
        (n a : ℕ) (f : Phase) (w : Wire State write q)
        → edge false f ≡ reading a 1
        → On w f
        → (get_words State write q n w).0 ≡ words_from mem a n
    unfolding get_words edge words_from
    get_words-eq zero a f w e o = refl
    get_words-eq (suc n) a f w e o =
        let d = get_data-On a f w e o in
        ap₂ (λ x xs. x ∷ xs) d.0 (get_words-eq n (a + 1) (reading a 16) _ refl d.1)

    -- `ReadEEPROMExec` reads the words from the address on, whatever the EEPROM did before.
    pub read_eeprom-eq :
        (a n : ℕ) (w : Wire State write q)
        → a < 64
        → (read_eeprom State write q a n w).0 ≡ words_from mem a n
    unfolding read_eeprom edge
    read_eeprom-eq a n w h =
        get_words-eq n a (reading a 0) _ refl (put_addr-On a _ h (start_op-On w))

    -- `GetNodeAddr` over an EEPROM that keeps to the serial protocol: it returns 0 with the first three words
    -- where their sum of 16 bits is the fourth, and else -1 with a zero address.
    pub get_node_addr-words :
        (w : Wire State write q)
        → (((mem 0 + mem 1 + mem 2) % 2 ^ 16 ≡ mem 3)
            × ((get_node_addr State write q w).0 ≡ (pos 0, mem 0 ∷ mem 1 ∷ mem 2 ∷ [])))
          ⊎ (((mem 0 + mem 1 + mem 2) % 2 ^ 16 ≢ mem 3)
              × ((get_node_addr State write q w).0 ≡ (negsuc 0, 0 ∷ 0 ∷ 0 ∷ [])))
    unfolding get_node_addr words_from
    get_node_addr-words w =
        let e = read_eeprom-eq 0 3 w (omega arith) in
        let f = read_eeprom-eq 3 1 (read_eeprom State write q 0 3 w).1 (omega arith) in
        rw (e, f) (node_addr_cases (mem 0) (mem 1) (mem 2) (mem 3))
