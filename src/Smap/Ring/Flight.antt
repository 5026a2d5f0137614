-- ===== src/Smap/Ring/Flight.antt =====
-- smap/smap.c and xfer.c: the frames in flight, which are the descriptors from `TxDNVBDIndex` on, and
-- the bytes of the transmit buffer that they take.
use ps2eth.Prelude.{
  ℕ, zero, suc, ◌+◌, ◌-◌, ◌*◌, ◌/◌, ◌%◌, ◌^◌, ◌≤◌, ◌<◌, ◌≡◌, refl, sym, ap, ap₂, subst, ◌∙◌, ◌≢◌,
  List, ◌∷◌, [], arith, set, length, get_elem?-set_self, get_elem?-set_ne, bit_and_window,
}
use ps2eth.Smap.Regs.{bd_max_entry, tx_bufsize}
use ps2eth.Smap.Ring.{Bd, SmapDriverData, round4, bd_at}

pub round4-eq : (n : ℕ) → n < 2 ^ 16 → round4 n ≡ (n + 3) / 4 * 4
unfolding round4
round4-eq n h = omega (arith, bit_and_window 2 30 (n + 3))

-- The bytes of the `n` descriptors from `start` on.
pub in_flight : List Bd → ℕ → ℕ → ℕ
in_flight bds start zero = 0
in_flight bds start (suc n) =
    round4 (bd_at bds (start % bd_max_entry)).length + in_flight bds (start + 1) n

pub in_flight-none : (bds : List Bd) (start n : ℕ) → n ≡ 0 → in_flight bds start n ≡ 0
unfolding in_flight
in_flight-none bds start n e = rw e refl

pub in_flight-cong :
    (bds : List Bd) (a b n : ℕ)
    → a % bd_max_entry ≡ b % bd_max_entry
    → in_flight bds a n ≡ in_flight bds b n
unfolding in_flight
in_flight-cong bds a b zero e = refl
in_flight-cong bds a b (suc n) e = rw (e, in_flight-cong bds (a + 1) (b + 1) n (omega arith)) refl

pub in_flight-suc :
    (bds : List Bd) (start n : ℕ)
    → 0 < n
    → in_flight bds start n
      ≡ round4 (bd_at bds (start % bd_max_entry)).length + in_flight bds (start + 1) (n - 1)
unfolding in_flight
in_flight-suc bds start zero h = absurd (omega arith)
in_flight-suc bds start (suc n) h = let e : suc n - 1 ≡ n = omega arith in rw e refl

pub bd_at-set_self :
    (bds : List Bd) (i : ℕ) (bd : Bd) → i < length bds → bd_at (set bds i bd) i ≡ bd
unfolding bd_at
bd_at-set_self bds i bd h = rw (bd_at, get_elem?-set_self bds i bd h) refl

pub bd_at-set_ne :
    (bds : List Bd) (i j : ℕ) (bd : Bd) → i ≢ j → bd_at (set bds i bd) j ≡ bd_at bds j
unfolding bd_at
bd_at-set_ne bds i j bd ne = rw (bd_at, get_elem?-set_ne bds i j bd ne) refl

-- A write to a slot past the descriptors in flight, less than a round on, leaves them alone.
pub in_flight-set :
    (bds : List Bd) (bd : Bd) (start n past : ℕ)
    → n + past < bd_max_entry
    → in_flight (set bds ((start + n + past) % bd_max_entry) bd) start n ≡ in_flight bds start n
unfolding in_flight
in_flight-set bds bd start zero past h = refl
in_flight-set bds bd start (suc n) past h =
    let slot = (start + suc n + past) % bd_max_entry in
    let ne : slot ≢ start % bd_max_entry = λ e. omega arith in
    let moved : slot ≡ (start + 1 + n + past) % bd_max_entry = omega arith in
    rw (bd_at-set_ne bds slot (start % bd_max_entry) bd ne) (
      ap (λ r. round4 (bd_at bds (start % bd_max_entry)).length + r)
        (subst (λ i. in_flight (set bds i bd) (start + 1) n ≡ in_flight bds (start + 1) n)
          (sym moved) (in_flight-set bds bd (start + 1) n past (omega arith))))

pub in_flight-snoc :
    (bds : List Bd) (start n : ℕ)
    → in_flight bds start (suc n)
      ≡ in_flight bds start n + round4 (bd_at bds ((start + n) % bd_max_entry)).length
unfolding in_flight
in_flight-snoc bds start zero =
    let here : (start + 0) % bd_max_entry ≡ start % bd_max_entry = omega arith in
    rw here (omega arith)
in_flight-snoc bds start (suc n) =
    let moved : (start + 1 + n) % bd_max_entry ≡ (start + suc n) % bd_max_entry = omega arith in
    let rest = in_flight-snoc bds (start + 1) n in
    let rest' =
      subst
        (λ i.
          in_flight bds (start + 1) (suc n)
          ≡ in_flight bds (start + 1) n + round4 (bd_at bds i).length)
        moved rest in
    omega (arith, rest')

-- A descriptor written right behind those in flight joins them.
pub in_flight-put :
    (bds : List Bd) (bd : Bd) (slot start n : ℕ)
    → length bds ≡ bd_max_entry
    → n < bd_max_entry
    → slot ≡ (start + n) % bd_max_entry
    → in_flight (set bds slot bd) start (suc n) ≡ in_flight bds start n + round4 bd.length
in_flight-put bds bd slot start n slots room at =
    let bds' = set bds slot bd in
    let at0 : slot ≡ (start + n + 0) % bd_max_entry = omega arith in
    let old : in_flight bds' start n ≡ in_flight bds start n =
      subst (λ i. in_flight (set bds i bd) start n ≡ in_flight bds start n) (sym at0)
        (in_flight-set bds bd start n 0 (omega arith)) in
    let new : bd_at bds' ((start + n) % bd_max_entry) ≡ bd =
      subst (λ i. bd_at bds' i ≡ bd) at (bd_at-set_self bds slot bd (omega arith)) in
    in_flight-snoc bds' start n ∙ ap₂ (λ a (b : Bd). a + round4 b.length) old new

-- A device that writes the status of a descriptor leaves its length.
pub length-bd_at-set :
    (bds : List Bd) (i j status : ℕ)
    → (bd_at (set bds i (record (bd_at bds i) { ctrl_stat = status })) j).length
      ≡ (bd_at bds j).length
unfolding bd_at
length-bd_at-set [] i j c = refl
length-bd_at-set (b ∷ bds) zero zero c = refl
length-bd_at-set (b ∷ bds) zero (suc j) c = refl
length-bd_at-set (b ∷ bds) (suc i) zero c = refl
length-bd_at-set (b ∷ bds) (suc i) (suc j) c = length-bd_at-set bds i j c

pub in_flight-status :
    (bds : List Bd) (i status start n : ℕ)
    → in_flight (set bds i (record (bd_at bds i) { ctrl_stat = status })) start n
      ≡ in_flight bds start n
unfolding in_flight
in_flight-status bds i c start zero = refl
in_flight-status bds i c start (suc n) =
    ap₂ (λ (a b : ℕ). round4 a + b) (length-bd_at-set bds i (start % bd_max_entry) c)
      (in_flight-status bds i c (start + 1) n)

-- The ring is sound: the indices are bytes that differ by the number of frames in flight, which are at
-- most as many as there are descriptors, and the free space and the frames in flight make up the
-- transmit buffer.
pub record IsRing (s : SmapDriverData) : Type 0 where
  pub slots : length s.tx_bd ≡ bd_max_entry
  pub count : s.num_packets_in_tx ≤ bd_max_entry
  pub dnv : s.tx_dnv_bd_index < 2 ^ 8
  pub ahead : s.tx_bd_index ≡ (s.tx_dnv_bd_index + s.num_packets_in_tx) % 2 ^ 8
  pub space :
      s.tx_buffer_space_available + in_flight s.tx_bd s.tx_dnv_bd_index s.num_packets_in_tx
      ≡ tx_bufsize
