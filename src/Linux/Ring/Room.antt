-- ===== src/Linux/Ring/Room.antt =====
-- smap-linux/smap.c: the free room of the transmit buffer, and the end of `HandleTXInt`.
use ps2eth.Prelude.{
  ℕ, zero, suc, ◌+◌, ◌-◌, ◌%◌, ◌≤◌, ap, ap₂, subst, sym, ◌∙◌, ◌<◌, ◌≡◌, ◌≢◌, refl, ◌⊎◌, Bool, true,
  false, Option, some, List, arith, ◌==◌, ltb, Bool-cases, inl, inr, if◌then◌else◌,
}
use ps2eth.Smap.Regs.{tx_ready, has}
use ps2eth.Smap.Ring.{Bd, bd_at}
use ps2eth.Smap.Ring.Flight.{bd_at-set_ne}
use ps2eth.Linux.Ring.{
  SmapCb, Packet, bd_next, compute_free_size, round4, put_packet, retire, tx_int_loop,
  handle_tx_int, tx_errmask,
}

-- The pointers are offsets in the buffer of 4096 bytes, and the indices those of descriptors.
pub record IsRing (c : SmapCb) : Type 0 where
  pub size : c.size ≡ 4096
  pub start : c.ptr_start < 4096
  pub end : c.ptr_end < 4096
  pub first : c.index_start < 64
  pub last : c.index_end < 64

-- The bytes of the buffer that hold frames in flight: those from `ptr_start` on up to `ptr_end`, behind
-- the end of the buffer from its start on.
unfoldable pub used : SmapCb → ℕ
used c = (c.ptr_end + 4096 - c.ptr_start) % 4096

pub used-lt : (c : SmapCb) → used c < 4096
unfolding used
used-lt c = omega arith

-- `ComputeFreeSize` gives the bytes that are not in flight as long as the range in flight does not wrap
-- around; once it does, it gives the bytes that are in flight.
pub compute_free_size-used :
    (c : SmapCb)
    → IsRing c
    → compute_free_size c ≡ (if ltb c.ptr_end c.ptr_start then used c else 4096 - used c)
unfolding compute_free_size used
compute_free_size-used c v = ground (arith, v.size, v.start, v.end)

-- A packet that `SMap_Send` puts into the ring adds its length, rounded to words, to the bytes in flight,
-- modulo the size of the buffer.
pub used-put_packet :
    (p : Packet) (txbuf : List ℕ) (c : SmapCb)
    → IsRing c
    → used (put_packet p txbuf c).cb ≡ (used c + round4 p.tot_len) % 4096
unfolding put_packet used
used-put_packet p txbuf c v = omega (arith, v.start, v.end)

put_packet-IsRing :
    (p : Packet) (txbuf : List ℕ) (c : SmapCb) → IsRing c → IsRing (put_packet p txbuf c).cb
unfolding put_packet bd_next
put_packet-IsRing p txbuf c v = record {
  size = v.size;
  start = v.start;
  end = omega arith;
  first = v.first;
  last = ground (arith, v.last);
}

retire-IsRing : (c : SmapCb) → IsRing c → IsRing (retire c)
unfolding retire bd_next
retire-IsRing c v = record {
  size = v.size;
  start = omega arith;
  end = v.end;
  first = ground (arith, v.first);
  last = v.last;
}

-- The descriptors in flight.
pub flight : SmapCb → ℕ
flight c = (c.index_end + 64 - c.index_start) % 64

flight-retire :
    (c : SmapCb) → IsRing c → c.index_start ≢ c.index_end → suc (flight (retire c)) ≡ flight c
unfolding flight retire bd_next
flight-retire c v ne = ground (arith, v.first, v.last, ne)

-- The bytes of the buffer that the `n` frames from the descriptor `i` on take.
pub room : List Bd → ℕ → ℕ → ℕ
room bds i zero = 0
room bds i (suc n) = round4 (bd_at bds i).length + room bds ((i + 1) % 64) n

-- How the loop ends on the ring `c`: the `count` oldest frames in flight, which the device has sent, have left
-- the ring, and their room is free. All frames have left, or the next one is not sent. The result is that
-- there was no error only if it was so before and none of these descriptors, nor the next one, has an error.
pub record Reclaimed (before : Bool) (c : SmapCb) (o : Option (SmapCb × Bool)) : Type 0 where
  pub ring : SmapCb
  pub no_error : Bool
  pub ends : o ≡ some (ring, no_error)
  pub valid : IsRing ring
  pub count : ℕ
  pub bound : count ≤ flight c
  pub first : ring.index_start ≡ (c.index_start + count) % 64
  pub last : (ring.index_end ≡ c.index_end) × (ring.ptr_end ≡ c.ptr_end)
  pub sent :
      (k : ℕ) → k < count → has (bd_at c.bd ((c.index_start + k) % 64)).ctrl_stat tx_ready ≡ false
  pub clean :
      no_error ≡ true
      → (before ≡ true)
        × ((k : ℕ)
            → k < count
            → has (bd_at c.bd ((c.index_start + k) % 64)).ctrl_stat tx_errmask ≡ false)
  pub stop :
      ((count ≡ flight c) × (ring.ptr_start ≡ c.ptr_end))
      ⊎ ((count < flight c)
          × (has (bd_at c.bd ((c.index_start + count) % 64)).ctrl_stat tx_ready ≡ true)
          × (ring.ptr_start ≡ (c.ptr_start + room c.bd c.index_start count) % 4096))

-- A frame that leaves the ring leaves the other descriptors as they are.
bd_at-retire :
    (c : SmapCb) (k : ℕ)
    → IsRing c
    → k + 1 < 64
    → bd_at (retire c).bd (((retire c).index_start + k) % 64)
      ≡ bd_at c.bd ((c.index_start + suc k) % 64)
unfolding retire bd_next
bd_at-retire c k v h =
    let slot : (bd_next c.index_start + k) % 64 ≡ (c.index_start + suc k) % 64 =
      ground (arith, v.first) in
    let other : c.index_start ≢ (c.index_start + suc k) % 64 = λ e. omega (arith, v.first, h, e) in
    ap (λ i. bd_at (retire c).bd i) slot ∙ bd_at-set_ne c.bd c.index_start _ _ other

room-retire :
    (c : SmapCb) (n k : ℕ)
    → IsRing c
    → n + k + 1 ≤ 64
    → room (retire c).bd (((retire c).index_start + k) % 64) n
      ≡ room c.bd ((c.index_start + suc k) % 64) n
unfolding room
room-retire c zero k v h = refl
room-retire c (suc n) k v h =
    let here : (((retire c).index_start + k) % 64 + 1) % 64
        ≡ ((retire c).index_start + (k + 1)) % 64 =
      omega arith in
    let there : ((c.index_start + suc k) % 64 + 1) % 64 ≡ (c.index_start + suc (k + 1)) % 64 =
      omega arith in
    ap₂ (λ a b. a + b) (ap (λ b. round4 b.length) (bd_at-retire c k v (omega (arith, h))))
      (ap (λ i. room (retire c).bd i n) here
        ∙ room-retire c n (k + 1) v (omega (arith, h))
        ∙ ap (λ i. room c.bd i n) (sym there))

was_clean :
    (err before : Bool) → (if err then false else before) ≡ true → (err ≡ false) × (before ≡ true)
was_clean true before e = absurd (ground (arith, e))
was_clean false before e = (refl, e)

-- What holds of the descriptor at the start, and of those from the next one on, holds of all.
from_next :
    (c : SmapCb) (mask n : ℕ)
    → IsRing c
    → n < 63
    → has (bd_at c.bd c.index_start).ctrl_stat mask ≡ false
    → ((k : ℕ)
        → k < n
        → has (bd_at (retire c).bd (((retire c).index_start + k) % 64)).ctrl_stat mask ≡ false)
    → (k : ℕ) → k < suc n
    → has (bd_at c.bd ((c.index_start + k) % 64)).ctrl_stat mask ≡ false
from_next c mask n v h e f zero l =
    let here : c.index_start ≡ (c.index_start + 0) % 64 = omega (arith, v.first) in
    subst (λ i. has (bd_at c.bd i).ctrl_stat mask ≡ false) here e
from_next c mask n v h e f (suc k) l =
    ap (λ b. has b.ctrl_stat mask) (sym (bd_at-retire c k v (omega (arith, h, l))))
    ∙ f k (omega (arith, l))

-- The fields after a frame has left.
retire-fields :
    (c : SmapCb)
    → IsRing c
    → ((retire c).index_start ≡ (c.index_start + 1) % 64)
      × ((retire c).index_end ≡ c.index_end)
      × ((retire c).ptr_end ≡ c.ptr_end)
      × ((retire c).ptr_start ≡ (c.ptr_start + round4 (bd_at c.bd c.index_start).length) % 4096)
unfolding retire bd_next
retire-fields c v = (ground (arith, v.first), refl, refl, refl)

room_from_next :
    (c : SmapCb) (n : ℕ)
    → IsRing c
    → n < 63
    → room (retire c).bd (retire c).index_start n ≡ room c.bd ((c.index_start + 1) % 64) n
room_from_next c n v h =
    let start : (retire c).index_start ≡ ((retire c).index_start + 0) % 64 =
      omega (arith, (retire-fields c v).0) in
    ap (λ i. room (retire c).bd i n) start ∙ room-retire c n 0 v (omega (arith, h))

module _ (before : Bool) (c : SmapCb) (v : IsRing c) (ne : c.index_start ≢ c.index_end) where
  frame_gone :
      (o : Option (SmapCb × Bool))
      → has (bd_at c.bd c.index_start).ctrl_stat tx_ready ≡ false
      → Reclaimed
          (if has (bd_at c.bd c.index_start).ctrl_stat tx_errmask then false else before)
          (retire c)
          o
      → Reclaimed before c o
  unfolding flight room
  frame_gone o e w =
      let less = flight-retire c v ne in
      let small : w.count < 63 = omega (arith, w.bound, less) in
      let turn : (retire c).index_start ≡ (c.index_start + 1) % 64 = (retire-fields c v).0 in
      record {
        ring = w.ring;
        no_error = w.no_error;
        ends = w.ends;
        valid = w.valid;
        count = suc w.count;
        bound = omega (arith, w.bound, less);
        first = omega (arith, w.first, turn);
        last = (w.last.0 ∙ (retire-fields c v).1, w.last.1 ∙ (retire-fields c v).2);
        sent = from_next c tx_ready w.count v small e w.sent;
        clean = (λ q.
            let cl = w.clean q in
            let now = was_clean _ before cl.0 in
            (now.1, from_next c tx_errmask w.count v small now.0 cl.1));
        stop = elim w.stop [
          | inl (all, end) ↦ inl (omega (arith, all, less), end ∙ (retire-fields c v).2)
          | inr (some_left, waits, at') ↦ inr (
            omega (arith, some_left, less),
            subst (λ b. has b.ctrl_stat tx_ready ≡ true)
                (bd_at-retire c w.count v (omega (arith, small))) waits,
            omega (arith, at', (retire-fields c v).3, room_from_next c w.count v small),
          )
        ];
      }

tx_int_loop-Reclaimed :
    (n : ℕ) (no_error : Bool) (c : SmapCb)
    → IsRing c
    → flight c < n
    → Reclaimed no_error c (tx_int_loop n no_error c)
unfolding tx_int_loop flight room
tx_int_loop-Reclaimed zero no_error c v h = absurd (omega (arith, h))
tx_int_loop-Reclaimed (suc n) no_error c v h =
    let b = bd_at c.bd c.index_start in
    let ok = if has b.ctrl_stat tx_errmask then false else no_error in
    let here : c.index_start ≡ (c.index_start + 0) % 64 = omega (arith, v.first) in
    elim (Bool-cases (c.index_start == c.index_end)) [
      | inl e ↦
          rw (tx_int_loop, e)
            (record {
              ring = record c { ptr_start = c.ptr_end };
              no_error = no_error;
              ends = refl;
              valid = record {
                size = v.size;
                start = v.end;
                end = v.end;
                first = v.first;
                last = v.last;
              };
              count = 0;
              bound = omega arith;
              first = here;
              last = (refl, refl);
              sent = (λ k l. absurd (omega (arith, l)));
              clean = (λ q. (q, λ k l. absurd (omega (arith, l))));
              stop = inl (ground (arith, e, v.first), refl);
            })
      | inr e ↦
          let ne : c.index_start ≢ c.index_end = λ q. ground (arith, e, q) in
          elim (Bool-cases (has b.ctrl_stat tx_ready)) [
            | inl r ↦
                rw (tx_int_loop, e, r)
                  (record {
                    ring = c;
                    no_error = ok;
                    ends = refl;
                    valid = v;
                    count = 0;
                    bound = omega arith;
                    first = here;
                    last = (refl, refl);
                    sent = (λ k l. absurd (omega (arith, l)));
                    clean = (λ q. ((was_clean _ no_error q).1, λ k l. absurd (omega (arith, l))));
                    stop = inr (
                      omega (arith, ne, v.first, v.last),
                      subst (λ i. has (bd_at c.bd i).ctrl_stat tx_ready ≡ true) here r,
                      omega (arith, v.start),
                    );
                  })
            | inr r ↦
                rw (tx_int_loop, e, r)
                  (frame_gone no_error c v ne _ r (
                    tx_int_loop-Reclaimed n ok (retire c) (retire-IsRing c v)
                      (omega (arith, h, flight-retire c v ne))))
          ]
    ]

-- `HandleTXInt` ends within 64 rounds on any ring. The oldest frames in flight that the device has sent leave
-- the ring, in order, up to the first that it has not sent, or all of them; the start of the range in flight
-- moves on by their lengths in words, round the buffer, or to its end. The result is that there was no error
-- only if no descriptor of these frames has an error.
pub handle_tx_int-Reclaimed : (c : SmapCb) → IsRing c → Reclaimed true c (handle_tx_int 65 c)
unfolding handle_tx_int flight
handle_tx_int-Reclaimed c v = tx_int_loop-Reclaimed 65 true c v (omega arith)
