-- ===== src/Smap/Receive/Frames.antt =====
-- smap/xfer.c: `HandleRxIntr` ends, and accounts for each frame once.
use ps2eth.Prelude.{
  ℕ, zero, suc, ◌+◌, ◌%◌, ◌^◌, ◌≤◌, ◌<◌, ◌≡◌, refl, ap, sym, subst, ◌≢◌, ◌⊎◌, Bool, true, false,
  Option, some, List, [], ◌∷◌, ◌++◌, arith, ltb, Bool-cases, inl, inr,
}
use ps2eth.Net.{u16}
use ps2eth.Smap.Regs.{bd_max_entry, rx_empty, has}
use ps2eth.Smap.Ring.{Bd, SmapDriverData, bd_at, round4}
use ps2eth.Smap.Receive.Count.{total, total-append, one_input, one_skip, one_dec}
use ps2eth.Smap.Receive.{
  RxAction, copy, input, frame_dec, RxPass, take_frame, release_bd, refill, rx_loop, handle_rx_intr,
  rx_bad, skip_frame,
}

abbrev pub is_free : List Bd → ℕ → Bool
is_free bds i = has (bd_at bds (i % bd_max_entry)).ctrl_stat rx_empty

-- What a round does with its frame: it is handed to the stack exactly if it has no error and there is a
-- pbuf of the rounded length; else it is skipped.
pub data Frame (alloc : ℕ → Bool) (bd : Bd) : List RxAction → Type 0 where
  delivered :
      has bd.ctrl_stat rx_bad ≡ false
      → alloc (u16 (round4 bd.length)) ≡ true
      → Frame alloc bd (copy bd.pointer bd.length ∷ (input ∷ []))
  bad : has bd.ctrl_stat rx_bad ≡ true → Frame alloc bd (skip_frame bd ∷ [])
  no_pbuf : alloc (u16 (round4 bd.length)) ≡ false → Frame alloc bd (skip_frame bd ∷ [])

-- The actions of the first rounds, from the index `start` on: each finds a frame in the descriptor that
-- the device has left there.
pub data Frames (device : ℕ → List Bd → List Bd) (frame_cnt : ℕ → ℕ) (alloc : ℕ → ℕ → Bool)
    (start : ℕ) : ℕ → List RxAction → Type 0 where
  none_yet : Frames device frame_cnt alloc start 0 []
  one_more :
      (n : ℕ) (acts more : List RxAction) (bds : List Bd) (bd : Bd)
      → Frames device frame_cnt alloc start n acts
      → 0 < frame_cnt n
      → bd ≡ bd_at (device n bds) ((start + n) % bd_max_entry)
      → has bd.ctrl_stat rx_empty ≡ false
      → Frame (alloc n) bd more
      → Frames device frame_cnt alloc start (n + 1) ((acts ++ more) ++ (frame_dec ∷ []))

-- After `n` rounds from the index `start` on: the frames handed to the stack, which are counted, and
-- those skipped are `n` together, and the device was told of each.
pub record Handled (device : ℕ → List Bd → List Bd) (frame_cnt : ℕ → ℕ) (alloc : ℕ → ℕ → Bool)
    (start n : ℕ) (p : RxPass) : Type 0 where
  pub frames : Frames device frame_cnt alloc start n p.actions
  pub index : p.driver.rx_bd_index ≡ (start + n) % 2 ^ 8
  pub counted : total one_input p.actions ≡ p.received
  pub taken : total one_input p.actions + total one_skip p.actions ≡ n
  pub decs : total one_dec p.actions ≡ n

-- Why the handler stops after `n` rounds: the device has no frame, or the next descriptor is its own.
pub Stopped : (ℕ → ℕ) → ℕ → RxPass → Type 0
Stopped frame_cnt n p = (frame_cnt n ≡ 0) ⊎ (is_free p.driver.rx_bd p.driver.rx_bd_index ≡ true)

-- One round adds either one input or one skip.
record Round (alloc : ℕ → Bool) (bd : Bd) (p p' : RxPass) : Type 0 where
  more : List RxAction
  frame : Frame alloc bd more
  actions : p'.actions ≡ (p.actions ++ more)
  index : p'.driver.rx_bd_index ≡ p.driver.rx_bd_index
  counted : total one_input p'.actions + p.received ≡ total one_input p.actions + p'.received
  taken :
      total one_input p'.actions + total one_skip p'.actions
      ≡ suc (total one_input p.actions + total one_skip p.actions)
  decs : total one_dec p'.actions ≡ total one_dec p.actions

skip-Round :
    (alloc : ℕ → Bool) (bd : Bd) (p : RxPass) (d : SmapDriverData)
    → d.rx_bd_index ≡ p.driver.rx_bd_index
    → Frame alloc bd (skip_frame bd ∷ [])
    → Round alloc bd p (record p { driver = d; actions = p.actions ++ (skip_frame bd ∷ []) })
unfolding total
skip-Round alloc bd p d ei w =
    let more = skip_frame bd ∷ [] in
    record {
      more = more;
      frame = w;
      actions = refl;
      index = ei;
      counted = omega (arith, total-append one_input p.actions more);
      taken =
          omega
            (arith, total-append one_input p.actions more, total-append one_skip p.actions more);
      decs = omega (arith, total-append one_dec p.actions more);
    }

input-Round :
    (alloc : ℕ → Bool) (bd : Bd) (p : RxPass)
    → Frame alloc bd (copy bd.pointer bd.length ∷ (input ∷ []))
    → Round alloc bd p (record p {
      received = p.received + 1;
      actions = p.actions ++ (copy bd.pointer bd.length ∷ (input ∷ []));
    })
unfolding total
input-Round alloc bd p w =
    let more = copy bd.pointer bd.length ∷ (input ∷ []) in
    record {
      more = more;
      frame = w;
      actions = refl;
      index = refl;
      counted = omega (arith, total-append one_input p.actions more);
      taken =
          omega
            (arith, total-append one_input p.actions more, total-append one_skip p.actions more);
      decs = omega (arith, total-append one_dec p.actions more);
    }

take_frame-Round :
    (alloc : ℕ → Bool) (bd : Bd) (p : RxPass) → Round alloc bd p (take_frame alloc bd p)
unfolding take_frame
take_frame-Round alloc bd p = elim (Bool-cases (has bd.ctrl_stat rx_bad)) [
  | inl b ↦ rw (take_frame, b) (skip-Round alloc bd p _ refl (bad b))
  | inr b ↦ elim (Bool-cases (alloc (u16 (round4 bd.length)))) [
    | inl c ↦ rw (take_frame, b, c) (input-Round alloc bd p (delivered b c))
    | inr c ↦ rw (take_frame, b, c) (skip-Round alloc bd p _ refl (no_pbuf c))
  ]
]

module _ (device : ℕ → List Bd → List Bd) (frame_cnt : ℕ → ℕ) (alloc : ℕ → ℕ → Bool)
    (start : ℕ) where
  Frames-snoc :
      (n : ℕ) (bd : Bd) (p p1 : RxPass) (bds : List Bd)
      → Frames device frame_cnt alloc start n p.actions
      → Round (alloc n) bd p p1
      → 0 < frame_cnt n
      → bd ≡ bd_at (device n bds) ((start + n) % bd_max_entry)
      → has bd.ctrl_stat rx_empty ≡ false
      → Frames device frame_cnt alloc start (n + 1) (p1.actions ++ (frame_dec ∷ []))
  Frames-snoc n bd p p1 bds fs r pos at busy =
      subst (λ l. Frames device frame_cnt alloc start (n + 1) (l ++ (frame_dec ∷ [])))
        (sym r.actions) (one_more n p.actions r.more bds bd fs pos at busy r.frame)

  release_bd-Handled :
      (n : ℕ) (bd : Bd) (p p1 : RxPass) (bds : List Bd)
      → Round (alloc n) bd p p1
      → Handled device frame_cnt alloc start n p
      → 0 < frame_cnt n
      → bd ≡ bd_at (device n bds) ((start + n) % bd_max_entry)
      → has bd.ctrl_stat rx_empty ≡ false
      → Handled device frame_cnt alloc start (n + 1) (release_bd bd p1)
  unfolding release_bd total
  release_bd-Handled n bd p p1 bds r v pos at busy =
      let more = frame_dec ∷ [] in
      record {
        frames = Frames-snoc n bd p p1 bds v.frames r pos at busy;
        index = omega (arith, r.index, v.index);
        counted = omega (arith, total-append one_input p1.actions more, r.counted, v.counted);
        taken = omega (
          arith,
          total-append one_input p1.actions more,
          total-append one_skip p1.actions more,
          r.taken,
          v.taken,
        );
        decs = omega (arith, total-append one_dec p1.actions more, r.decs, v.decs);
      }

  refill-Handled :
      (n : ℕ) (p : RxPass)
      → Handled device frame_cnt alloc start n p
      → Handled device frame_cnt alloc start n (refill device n p)
  unfolding refill
  refill-Handled n p v = record {
    frames = v.frames;
    index = v.index;
    counted = v.counted;
    taken = v.taken;
    decs = v.decs;
  }

-- What the loop comes to: its result, after how many rounds, and why it stops.
unfoldable pub Finishes :
    (ℕ → List Bd → List Bd) → (ℕ → ℕ) → (ℕ → ℕ → Bool) → ℕ → Option RxPass → Type 0
Finishes device frame_cnt alloc start o =
    (n : ℕ) × ((p : RxPass) × ((o ≡ some p)
        × (Handled device frame_cnt alloc start n p × Stopped frame_cnt n p)))

pub rx_loop-Handled :
    (device : ℕ → List Bd → List Bd) (frame_cnt : ℕ → ℕ) (alloc : ℕ → ℕ → Bool)
    (fuel n start quiet : ℕ) (p : RxPass)
    → frame_cnt quiet ≡ 0
    → n ≤ quiet
    → quiet < fuel + n
    → Handled device frame_cnt alloc start n p
    → Finishes device frame_cnt alloc start (rx_loop device frame_cnt alloc fuel n p)
unfolding rx_loop Finishes Stopped refill
rx_loop-Handled device frame_cnt alloc zero n start quiet p z le f v = absurd (omega arith)
rx_loop-Handled device frame_cnt alloc (suc fuel) n start quiet p z le f v =
    let q = refill device n p in
    let vq = refill-Handled device frame_cnt alloc start n p v in
    elim (Bool-cases (ltb 0 (frame_cnt n))) [
      | inr b ↦ (n, (q, (rw (rx_loop, b) refl, (vq, inl (ground arith)))))
      | inl b ↦ elim (Bool-cases (is_free q.driver.rx_bd q.driver.rx_bd_index)) [
        | inl c ↦ (n, (q, (rw (rx_loop, b, c) refl, (vq, inr c))))
        | inr c ↦
            let bd = bd_at q.driver.rx_bd (q.driver.rx_bd_index % bd_max_entry) in
            let pos : 0 < frame_cnt n = ground arith in
            let slot : q.driver.rx_bd_index % bd_max_entry ≡ (start + n) % bd_max_entry =
              omega (arith, v.index) in
            let later : n ≢ quiet = λ e. absurd (omega (arith, ap frame_cnt e, pos, z)) in
            let v1 =
              release_bd-Handled device frame_cnt alloc start n bd q (take_frame (alloc n) bd q)
                p.driver.rx_bd (take_frame-Round (alloc n) bd q) vq pos
                (ap (bd_at q.driver.rx_bd) slot) c in
            let t =
              rx_loop-Handled device frame_cnt alloc fuel (n + 1) start quiet
                (release_bd bd (take_frame (alloc n) bd q)) z (omega (arith, later)) (omega arith)
                v1 in
            (t.0, (t.1.0, (rw (rx_loop, b, c) t.1.1.0, t.1.1.1)))
      ]
    ]

pub start-Handled :
    (device : ℕ → List Bd → List Bd) (frame_cnt : ℕ → ℕ) (alloc : ℕ → ℕ → Bool) (s : SmapDriverData)
    → s.rx_bd_index < 2 ^ 8
    → Handled device frame_cnt alloc s.rx_bd_index 0
        (record { driver = s; received = 0; actions = [] })
unfolding total
start-Handled device frame_cnt alloc s byte = record {
  frames = none_yet;
  index = omega arith;
  counted = refl;
  taken = omega arith;
  decs = refl;
}

-- Whatever the device writes into the descriptors between the rounds and whatever the pool gives: if
-- the count of received frames reads 0 in round `quiet`, `HandleRxIntr` ends, with any fuel above
-- `quiet`. Before each of its rounds the count was above 0, and each round takes one frame off the
-- FIFO: a frame without an error for which there is a pbuf is handed to the stack, any other is skipped.
-- The result is the number of frames handed to the stack, and the index moves on by the number of
-- rounds. The handler stops only where the count reads 0 or the next descriptor is the device's.
pub handle_rx_intr-Handled :
    (device : ℕ → List Bd → List Bd) (frame_cnt : ℕ → ℕ) (alloc : ℕ → ℕ → Bool) (fuel quiet : ℕ)
    (s : SmapDriverData)
    → s.rx_bd_index < 2 ^ 8
    → frame_cnt quiet ≡ 0
    → quiet < fuel
    → Finishes device frame_cnt alloc s.rx_bd_index (handle_rx_intr device frame_cnt alloc fuel s)
unfolding handle_rx_intr
handle_rx_intr-Handled device frame_cnt alloc fuel quiet s byte z enough =
    rx_loop-Handled device frame_cnt alloc fuel 0 s.rx_bd_index quiet _ z (omega arith)
      (omega arith) (start-Handled device frame_cnt alloc s byte)
