-- ===== src/Smap/Thread/Keeps.antt =====
-- smap/xfer.c: `HandleRxIntr` keeps the transmit ring sound, of which it writes nothing.
use ps2eth.Prelude.{
  ℕ, zero, suc, ◌+◌, ◌%◌, ◌≡◌, refl, subst, Bool, List, some, some-injective, ltb, Bool-cases, inl,
  inr,
}
use ps2eth.Smap.Regs.{bd_max_entry, has}
use ps2eth.Smap.Ring.{Bd, SmapDriverData, bd_at, round4}
use ps2eth.Smap.Ring.Flight.{IsRing}
use ps2eth.Smap.Receive.{RxPass, take_frame, release_bd, refill, rx_loop, rx_bad}
use ps2eth.Smap.Receive.Frames.{is_free}
use ps2eth.Net.{u16}

-- `IsRing` reads the fields of the transmit ring only.
pub retyped :
    (s s' : SmapDriverData)
    → s'.tx_bd ≡ s.tx_bd
    → s'.num_packets_in_tx ≡ s.num_packets_in_tx
    → s'.tx_dnv_bd_index ≡ s.tx_dnv_bd_index
    → s'.tx_bd_index ≡ s.tx_bd_index
    → s'.tx_buffer_space_available ≡ s.tx_buffer_space_available
    → IsRing s
    → IsRing s'
retyped s s' eb en ed ei es v = record {
  slots = rw eb v.slots;
  count = rw en v.count;
  dnv = rw ed v.dnv;
  ahead = rw (ei, ed, en) v.ahead;
  space = rw (es, eb, ed, en) v.space;
}

take_frame-IsRing :
    (alloc : ℕ → Bool) (bd : Bd) (p : RxPass)
    → IsRing p.driver
    → IsRing (take_frame alloc bd p).driver
unfolding take_frame
take_frame-IsRing alloc bd p v = elim (Bool-cases (has bd.ctrl_stat rx_bad)) [
  | inl b ↦ rw (take_frame, b) (retyped p.driver _ refl refl refl refl refl v)
  | inr b ↦ elim (Bool-cases (alloc (u16 (round4 bd.length)))) [
    | inl c ↦ rw (take_frame, b, c) v
    | inr c ↦ rw (take_frame, b, c) (retyped p.driver _ refl refl refl refl refl v)
  ]
]

pub rx_loop-IsRing :
    (device : ℕ → List Bd → List Bd) (frame_cnt : ℕ → ℕ) (alloc : ℕ → ℕ → Bool) (fuel k : ℕ)
    (p p' : RxPass)
    → rx_loop device frame_cnt alloc fuel k p ≡ some p'
    → IsRing p.driver
    → IsRing p'.driver
unfolding rx_loop release_bd refill
rx_loop-IsRing device frame_cnt alloc zero k p p' e v = cc
rx_loop-IsRing device frame_cnt alloc (suc n) k p p' e v =
    let q = refill device k p in
    let bd = bd_at q.driver.rx_bd (q.driver.rx_bd_index % bd_max_entry) in
    let p1 = take_frame (alloc k) bd q in
    let vq = retyped p.driver q.driver refl refl refl refl refl v in
    let v1 =
      retyped p1.driver (release_bd bd p1).driver refl refl refl refl refl
        (take_frame-IsRing (alloc k) bd q vq) in
    elim (Bool-cases (ltb 0 (frame_cnt k))) [
      | inr b ↦
          subst (λ (r : RxPass). IsRing r.driver) (some-injective q p' (rw (rx_loop, b) at e)) vq
      | inl b ↦ elim (Bool-cases (is_free q.driver.rx_bd q.driver.rx_bd_index)) [
        | inl c ↦
            subst (λ (r : RxPass). IsRing r.driver) (some-injective q p' (rw (rx_loop, b, c) at e))
              vq
        | inr c ↦
            rx_loop-IsRing device frame_cnt alloc n (k + 1) (release_bd bd p1) p'
              (rw (rx_loop, b, c) at e) v1
      ]
    ]
