-- ===== src/Linux/Receive/Handles.antt =====
-- smap-linux/smap.c: what `HandleRXInt` does with the frames up to the first empty descriptor.
use ps2eth.Prelude.{
  ℕ, zero, suc, ◌+◌, ◌%◌, ◌≤◌, ◌<◌, ◌≡◌, ◌⊎◌, refl, sym, ap, ap₂, subst, ◌∙◌, arith, Bool, true,
  false, ◌&&◌, some, Option, List, [], ◌∷◌, ◌++◌, append_assoc, append_nil, Bool-cases, inl, inr,
  if◌then◌else◌, leb,
}
use ps2eth.Smap.Regs.{rx_empty, has}
use ps2eth.Smap.Ring.{Bd}
use ps2eth.Linux.Ring.{bd_next}
use ps2eth.Linux.Receive.{
  Action, input, frame_dec, set_empty, Rx, is_good, fifo_ptr, rx_errmask, take_frame, release_bd,
  rx_int_loop, handle_rx_int, rx_minsize, rx_maxsize,
}

-- What becomes of a frame: it is handed to the stack exactly if it has no error, from 14 to 1518 bytes and a
-- pbuf; else it is an error.
pub data Frame (alloc : ℕ → Bool) (b : Bd) : List Action → Bool → Type 0 where
  delivered :
      has b.ctrl_stat rx_errmask ≡ false
      → 14 ≤ b.length
      → b.length ≤ 1518
      → alloc b.length ≡ true
      → Frame alloc b (input (fifo_ptr b.pointer) b.length ∷ []) true
  bad : has b.ctrl_stat rx_errmask ≡ true → Frame alloc b [] false
  bad_length : (b.length < 14) ⊎ (1518 < b.length) → Frame alloc b [] false
  no_pbuf : alloc b.length ≡ false → Frame alloc b [] false

bd_next-mod : (i : ℕ) → i < 64 → bd_next i ≡ (i + 1) % 64
unfolding bd_next
bd_next-mod i h = ground (arith, h)

&&_assoc : (a b c : Bool) → ((a && b) && c) ≡ (a && (b && c))
&&_assoc true b c = refl
&&_assoc false b c = refl

module _ (read : ℕ → ℕ → Bd) (alloc : ℕ → ℕ → Bool) where
  -- The rounds from `k` on, at the index `i`: each finds a frame, does with it what is due, and gives the
  -- descriptor back.
  pub data Rounds : (k i n : ℕ) → List Action → Bool → Type 0 where
    no_more : (k i : ℕ) → Rounds k i 0 [] true
    one_more :
        (k i n : ℕ) (acts rest : List Action) (ok ok' : Bool)
        → has (read k i).ctrl_stat rx_empty ≡ false
        → Frame (alloc k) (read k i) acts ok
        → Rounds (k + 1) ((i + 1) % 64) n rest ok'
        → Rounds k i (suc n) (acts ++ (frame_dec ∷ set_empty i ∷ rest)) (ok && ok')

  -- The outcome after `n` rounds from the round `k` on: the index has moved on by `n`, round the ring, and the
  -- result is that there was no error exactly if each frame was delivered.
  pub record Handled (k n : ℕ) (r : Rx) (o : Option Rx) : Type 0 where
    pub after : Rx
    pub acts : List Action
    pub ok : Bool
    pub ends : o ≡ some after
    pub index : after.index ≡ (r.index + n) % 64
    pub actions : after.actions ≡ (r.actions ++ acts)
    pub result : after.no_error ≡ (r.no_error && ok)
    pub rounds : Rounds k r.index n acts ok

  -- What `take_frame` adds.
  record Taken (f : ℕ → Bool) (b : Bd) (r t : Rx) : Type 0 where
    pub acts : List Action
    pub ok : Bool
    pub frame : Frame f b acts ok
    pub index : t.index ≡ r.index
    pub actions : t.actions ≡ (r.actions ++ acts)
    pub result : t.no_error ≡ (r.no_error && ok)

  lost :
      (f : ℕ → Bool) (b : Bd) (r : Rx)
      → Frame f b [] false
      → Taken f b r (record r { no_error = false })
  lost f b r w = record {
    acts = [];
    ok = false;
    frame = w;
    index = refl;
    actions = sym (append_nil r.actions);
    result = ground arith;
  }

  Taken-if :
      {f : ℕ → Bool} {b : Bd} {r : Rx} (c : Bool) (s t : Rx)
      → (c ≡ true → Taken f b r s)
      → (c ≡ false → Taken f b r t)
      → Taken f b r (if c then s else t)
  Taken-if true s t h k = h refl
  Taken-if false s t h k = k refl

  not_good : (f : ℕ → Bool) (b : Bd) → is_good b ≡ false → Frame f b [] false
  unfolding is_good
  not_good f b e = elim (Bool-cases (has b.ctrl_stat rx_errmask)) [
    | inl err ↦ bad err
    | inr fine ↦ elim (Bool-cases (leb rx_minsize b.length)) [
      | inr short ↦ bad_length (inl (ground (arith, short)))
      | inl enough ↦ elim (Bool-cases (leb b.length rx_maxsize)) [
        | inr long ↦ bad_length (inr (ground (arith, long)))
        | inl fits ↦ absurd (ground (arith, e, fine, enough, fits))
      ]
    ]
  ]

  take_frame-Taken : (f : ℕ → Bool) (b : Bd) (r : Rx) → Taken f b r (take_frame f b r)
  unfolding take_frame is_good
  take_frame-Taken f b r =
      Taken-if (is_good b) _ _
        (λ g.
          Taken-if (f b.length) _ _
            (λ a. record {
              acts = input (fifo_ptr b.pointer) b.length ∷ [];
              ok = true;
              frame = delivered (ground (arith, g)) (ground (arith, g)) (ground (arith, g)) a;
              index = refl;
              actions = refl;
              result = ground arith;
            })
            (λ a. lost f b r (no_pbuf a)))
        (λ g. lost f b r (not_good f b g))

  index-release_bd :
      (f : ℕ → Bool) (b : Bd) (r t : Rx)
      → r.index < 64
      → Taken f b r t
      → (release_bd t).index ≡ (r.index + 1) % 64
  unfolding release_bd
  index-release_bd f b r t h w = ap bd_next w.index ∙ bd_next-mod r.index h

  -- One more round in front of others.
  in_front :
      (k n : ℕ) (r t : Rx) (o : Option Rx)
      → r.index < 64
      → has (read k r.index).ctrl_stat rx_empty ≡ false
      → Taken (alloc k) (read k r.index) r t
      → Handled (k + 1) n (release_bd t) o
      → Handled k (suc n) r o
  unfolding release_bd
  in_front k n r t o h e w g =
      let next : (release_bd t).index ≡ (r.index + 1) % 64 = index-release_bd _ _ r t h w in
      record {
        after = g.after;
        acts = w.acts ++ (frame_dec ∷ set_empty r.index ∷ g.acts);
        ok = w.ok && g.ok;
        ends = g.ends;
        index = omega (arith, g.index, next);
        actions =
            g.actions
            ∙ ap₂ (λ a i. (a ++ (frame_dec ∷ set_empty i ∷ [])) ++ g.acts) w.actions w.index
            ∙ append_assoc (r.actions ++ w.acts) (frame_dec ∷ set_empty r.index ∷ []) g.acts
            ∙ append_assoc r.actions w.acts (frame_dec ∷ set_empty r.index ∷ g.acts);
        result = g.result ∙ ap (λ a. a && g.ok) w.result ∙ &&_assoc r.no_error w.ok g.ok;
        rounds =
            one_more k r.index n w.acts g.acts w.ok g.ok e w.frame
              (subst (λ i. Rounds (k + 1) i n g.acts g.ok) next g.rounds);
      }

  rx_int_loop-Handled :
      (fuel n k : ℕ) (r : Rx)
      → n < fuel
      → r.index < 64
      → ((j : ℕ) → j < n → has (read (k + j) ((r.index + j) % 64)).ctrl_stat rx_empty ≡ false)
      → has (read (k + n) ((r.index + n) % 64)).ctrl_stat rx_empty ≡ true
      → Handled k n r (rx_int_loop read alloc fuel k r)
  unfolding rx_int_loop
  rx_int_loop-Handled zero n k r m h busy last = absurd (omega (arith, m))
  rx_int_loop-Handled (suc fuel) zero k r m h busy last =
      let e : has (read k r.index).ctrl_stat rx_empty ≡ true =
        ap₂ (λ a i. has (read a i).ctrl_stat rx_empty) (omega arith) (omega (arith, h)) ∙ last in
      rw (rx_int_loop, e)
        (record {
          after = r;
          acts = [];
          ok = true;
          ends = refl;
          index = omega (arith, h);
          actions = sym (append_nil r.actions);
          result = ground arith;
          rounds = no_more k r.index;
        })
  rx_int_loop-Handled (suc fuel) (suc n) k r m h busy last =
      let w = take_frame-Taken (alloc k) (read k r.index) r in
      let t = take_frame (alloc k) (read k r.index) r in
      let next = index-release_bd (alloc k) (read k r.index) r t h w in
      let e : has (read k r.index).ctrl_stat rx_empty ≡ false =
        ap₂ (λ a i. has (read a i).ctrl_stat rx_empty) (omega arith) (omega (arith, h))
        ∙ busy 0 (omega arith) in
      rw (rx_int_loop, e)
        (in_front k n r t _ h e w (
          rx_int_loop-Handled fuel n (k + 1) (release_bd t) (omega (arith, m)) (omega (arith, next))
            (λ j l.
              ap₂ (λ a i. has (read a i).ctrl_stat rx_empty) (omega arith) (omega (arith, next))
              ∙ busy (suc j) (omega (arith, l)))
            (ap₂ (λ a i. has (read a i).ctrl_stat rx_empty) (omega arith) (omega (arith, next))
              ∙ last)))

-- Where the descriptors that `HandleRXInt` reads hold frames in the first `n` rounds, and the next is empty, it
-- returns after `n` rounds, whatever the device writes meanwhile, with any fuel beyond `n`. In each round the
-- frame is handed to the stack exactly if it has no error, from 14 to 1518 bytes and a pbuf; then the count
-- of frames is decremented and the descriptor given back. The index has moved on by `n`, and the result is
-- that there was no error exactly if each frame was delivered.
pub handle_rx_int-Handled :
    (read : ℕ → ℕ → Bd) (alloc : ℕ → ℕ → Bool) (fuel n : ℕ) (r : Rx)
    → n < fuel
    → r.index < 64
    → ((j : ℕ) → j < n → has (read j ((r.index + j) % 64)).ctrl_stat rx_empty ≡ false)
    → has (read n ((r.index + n) % 64)).ctrl_stat rx_empty ≡ true
    → Handled read alloc 0 n
        (record r { no_error = true; actions = [] })
        (handle_rx_int read alloc fuel r)
unfolding handle_rx_int
handle_rx_int-Handled read alloc fuel n r m h busy last =
    let first : (j : ℕ) → 0 + j ≡ j = λ j. omega arith in
    rx_int_loop-Handled read alloc fuel n 0 _ m h
      (λ j l. ap (λ a. has (read a ((r.index + j) % 64)).ctrl_stat rx_empty) (first j) ∙ busy j l)
      (ap (λ a. has (read a ((r.index + n) % 64)).ctrl_stat rx_empty) (first n) ∙ last)
