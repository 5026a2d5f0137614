-- ===== src/Smap/Ring/Reclaim.antt =====
-- smap/smap.c: `HandleTxIntr` takes the frames that were sent off the ring, and ends.
use ps2eth.Prelude.{
  ℕ, zero, suc, ◌+◌, ◌-◌, ◌%◌, ◌^◌, ◌<◌, ◌≡◌, refl, ap, subst, ◌∙◌, Bool, true, false, some, List,
  arith, ltb, Bool-cases, bit_and_low, inl, inr, ◌⊎◌,
}
use ps2eth.Smap.Regs.{bd_max_entry, tx_ready, has}
use ps2eth.Smap.Ring.{Bd, SmapDriverData, bd_at, reclaim, intr_loop, handle_tx_intr}
use ps2eth.Smap.Ring.Flight.{in_flight-cong, in_flight-suc, IsRing}

-- Whether the device still has to send the frame of a descriptor.
abbrev pub is_ready : List Bd → ℕ → Bool
is_ready bds i = has (bd_at bds (i % bd_max_entry)).ctrl_stat tx_ready

-- The `n` descriptors from `start` on were sent.
pub Done : List Bd → ℕ → ℕ → Type 0
Done bds start zero = Unit {0}
Done bds start (suc n) = (is_ready bds start ≡ false) × Done bds (start + 1) n

Done-cong :
    (bds : List Bd) (a b n : ℕ) → a % bd_max_entry ≡ b % bd_max_entry → Done bds a n → Done bds b n
unfolding Done
Done-cong bds a b zero e d = tt
Done-cong bds a b (suc n) e d = (
  subst (λ i. has (bd_at bds i).ctrl_stat tx_ready ≡ false) e d.0,
  Done-cong bds (a + 1) (b + 1) n (omega arith) d.1,
)

-- The oldest `n` frames in flight are reclaimed, and `s` becomes `s'`.
pub record Reclaimed (s : SmapDriverData) (n : ℕ) (s' : SmapDriverData) : Type 0 where
  pub fewer : s'.num_packets_in_tx + n ≡ s.num_packets_in_tx
  pub bds : s'.tx_bd ≡ s.tx_bd
  pub dnv : s'.tx_dnv_bd_index ≡ (s.tx_dnv_bd_index + n) % 2 ^ 8
  pub sent : Done s.tx_bd s.tx_dnv_bd_index n
  pub rest : (s'.num_packets_in_tx ≡ 0) ⊎ (is_ready s'.tx_bd s'.tx_dnv_bd_index ≡ true)
  pub ring : IsRing s'

reclaim-IsRing :
    (s : SmapDriverData) (bd : Bd)
    → 0 < s.num_packets_in_tx
    → IsRing s
    → IsRing (reclaim bd (bd_at s.tx_bd (s.tx_dnv_bd_index % bd_max_entry)) s)
unfolding reclaim
reclaim-IsRing s bd some_left v =
    let start = s.tx_dnv_bd_index in
    let n = s.num_packets_in_tx in
    let split = in_flight-suc s.tx_bd start n some_left in
    let moved = in_flight-cong s.tx_bd ((start + 1) % 2 ^ 8) (start + 1) (n - 1) (omega arith) in
    record {
      slots = v.slots;
      count = omega (arith, v.count);
      dnv = omega arith;
      ahead = omega (arith, v.ahead);
      space = rw moved (omega (arith, v.space, split));
    }

-- Reclaiming one frame and then `n` more is reclaiming `n + 1`.
reclaim-Reclaimed :
    (s s1 s' : SmapDriverData) (n : ℕ)
    → s1.tx_bd ≡ s.tx_bd
    → s1.tx_dnv_bd_index ≡ (s.tx_dnv_bd_index + 1) % 2 ^ 8
    → s1.num_packets_in_tx + 1 ≡ s.num_packets_in_tx
    → is_ready s.tx_bd s.tx_dnv_bd_index ≡ false
    → Reclaimed s1 n s'
    → Reclaimed s (suc n) s'
unfolding Done
reclaim-Reclaimed s s1 s' n eb ed en ready w = record {
  fewer = omega (arith, w.fewer);
  bds = w.bds ∙ eb;
  dnv = omega (arith, w.dnv);
  sent = (
    ready,
    Done-cong s.tx_bd s1.tx_dnv_bd_index (s.tx_dnv_bd_index + 1) n (omega arith)
        (subst (λ b. Done b s1.tx_dnv_bd_index n) eb w.sent),
  );
  rest = w.rest;
  ring = w.ring;
}

nothing-Reclaimed :
    (s : SmapDriverData)
    → IsRing s
    → (s.num_packets_in_tx ≡ 0) ⊎ (is_ready s.tx_bd s.tx_dnv_bd_index ≡ true)
    → Reclaimed s 0 s
unfolding Done
nothing-Reclaimed s v r = record {
  fewer = omega arith;
  bds = refl;
  dnv = omega (arith, v.dnv);
  sent = tt;
  rest = r;
  ring = v;
}

pub intr_loop-Reclaimed :
    (fuel result : ℕ) (s : SmapDriverData)
    → s.num_packets_in_tx < fuel
    → IsRing s
    → (n : ℕ) × ((s' : SmapDriverData) × ((intr_loop fuel result s ≡ some (result + n, s'))
          × Reclaimed s n s'))
unfolding intr_loop reclaim
intr_loop-Reclaimed zero result s f v = absurd (omega arith)
intr_loop-Reclaimed (suc fuel) result s f v =
    let here : result + 0 ≡ result = omega arith in
    elim (Bool-cases (ltb 0 s.num_packets_in_tx)) [
      | inr b ↦ (0, (s, (rw (intr_loop, b, here) refl, nothing-Reclaimed s v (inl (ground arith)))))
      | inl b ↦ elim (Bool-cases (is_ready s.tx_bd s.tx_dnv_bd_index)) [
        | inl c ↦ (0, (s, (rw (intr_loop, b, c, here) refl, nothing-Reclaimed s v (inr c))))
        | inr c ↦
            let i = s.tx_dnv_bd_index % bd_max_entry in
            let bd = bd_at s.tx_bd i in
            let masked = bit_and_low 6 s.tx_dnv_bd_index in
            let s1 = reclaim bd bd s in
            let v1 = reclaim-IsRing s bd (ground arith) v in
            let t = intr_loop-Reclaimed fuel (result + 1) s1 (ground arith) v1 in
            let e : result + 1 + t.0 ≡ result + suc t.0 = omega arith in
            (
              suc t.0,
              (
                t.1.0,
                (
                  rw (intr_loop, b, c, masked) (t.1.1.0 ∙ ap (λ r. some (r, t.1.0)) e),
                  reclaim-Reclaimed s s1 t.1.0 t.0 refl refl (ground arith) c t.1.1.1,
                ),
              ),
            )
      ]
    ]

-- `HandleTxIntr` ends. It takes off the ring the longest run of frames that the device has sent,
-- oldest first, gives their bytes back, and returns how many they are; the ring stays sound.
pub handle_tx_intr-Reclaimed :
    (s : SmapDriverData)
    → IsRing s
    → (n : ℕ) × ((s' : SmapDriverData) × ((handle_tx_intr (suc s.num_packets_in_tx) s
            ≡ some (n, s'))
          × Reclaimed s n s'))
unfolding handle_tx_intr
handle_tx_intr-Reclaimed s v =
    let t = intr_loop-Reclaimed (suc s.num_packets_in_tx) 0 s (omega arith) v in
    let e : 0 + t.0 ≡ t.0 = omega arith in
    (t.0, (t.1.0, (t.1.1.0 ∙ ap (λ r. some (r, t.1.0)) e, t.1.1.1)))
