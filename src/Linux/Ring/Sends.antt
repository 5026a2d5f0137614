-- ===== src/Linux/Ring/Sends.antt =====
-- smap-linux/smap.c: what `SMap_Send` does with a packet.
use ps2eth.Prelude.{
  ℕ, zero, suc, set, ◌+◌, ◌%◌, ◌≤◌, ◌<◌, ◌≡◌, ◌≢◌, refl, ap, Bool, true, false, not, some, List, [],
  ◌∷◌, ◌++◌, arith, ◌==◌, ltb, ◌&&◌, Bool-cases, subst, inl, inr, length, take, drop, get_elem?,
  get_elem?-set_self, get_elem?-set_ne, ◌∙◌, none, Option, ◌-◌, joined, append_assoc, append_nil,
  length-append, length-set, drop-drop, if◌then◌else◌,
}
use ps2eth.Smap.Regs.{tx_ready, has}
use ps2eth.Smap.Ring.{bd_at}
use ps2eth.Linux.Requests.{smap_ok, smap_err, smap_con, smap_tx}
use ps2eth.Linux.Ring.{
  SmapCb, Packet, Send, refused, compute_free_size, round4, put_packet, smap_send, is_emac_ready,
  ready_loop, sent_bd, bd_next, copy_to_tx_buffer, source_bytes, tx_maxsize,
}
use ps2eth.Linux.Ring.Room.{IsRing, used, compute_free_size-used, used-put_packet, used-lt}

copy_to_tx_buffer-joined :
    (qs : List (List ℕ)) (buf : List ℕ)
    → copy_to_tx_buffer qs buf ≡ joined qs ++ drop (length (joined qs)) buf
unfolding copy_to_tx_buffer
copy_to_tx_buffer-joined [] buf = refl
copy_to_tx_buffer-joined (q ∷ qs) buf =
    rw
      (
        copy_to_tx_buffer-joined qs (drop (length q) buf),
        drop-drop buf,
        length-append q (joined qs),
        append_assoc q (joined qs),
      )
      refl

-- Whose `tot_len` is the number of its bytes, so that a packet in one pbuf has all of them there.
pub record IsPacket (p : Packet) : Type 0 where
  pub total : p.tot_len ≡ length (p.first ++ joined p.more)

pub bytes : Packet → List ℕ
bytes p = p.first ++ joined p.more

no_more : (xs ys : List ℕ) → length xs ≡ length (xs ++ ys) → ys ≡ []
no_more xs [] e = refl
no_more xs (y ∷ ys) e = absurd (omega (arith, e, length-append xs (y ∷ ys)))

-- Either way of copying, the frame begins with the packet's bytes.
source_bytes-bytes :
    (p : Packet) (txbuf : List ℕ)
    → IsPacket p
    → (rest : List ℕ) × (source_bytes p txbuf ≡ bytes p ++ rest)
unfolding source_bytes bytes
source_bytes-bytes p txbuf v = elim (Bool-cases ((p.tot_len == length p.first) && p.aligned)) [
  | inl b ↦
      let one : length p.first ≡ length (p.first ++ joined p.more) = ground (arith, v.total, b) in
      (p.behind, rw (source_bytes, b, no_more p.first (joined p.more) one, append_nil p.first) refl)
  | inr b ↦ (
    drop (length (p.first ++ joined p.more)) txbuf,
    rw (source_bytes, b) (copy_to_tx_buffer-joined (p.first ∷ p.more) txbuf),
  )
]

-- Whether one of the thousand reads of `IsEMACReady` finds the EMAC ready.
pub IsReady : (ℕ → Bool) → Type 0
IsReady busy = (k : ℕ) × (k < 1000) × (busy k ≡ false)

module _ (busy : ℕ → Bool) where
  ready_loop-ready :
      (n k : ℕ) → ready_loop busy n k ≡ true → (j : ℕ) × (k ≤ j) × (j < k + n) × (busy j ≡ false)
  unfolding ready_loop
  ready_loop-ready zero k e = absurd (ground (arith, e))
  ready_loop-ready (suc n) k e = elim (Bool-cases (busy k)) [
    | inl b ↦
        let t = ready_loop-ready n (k + 1) (ground (arith, e, b)) in
        (t.0, omega (arith, t.1), omega (arith, t.2), t.3)
    | inr b ↦ (k, omega arith, omega arith, b)
  ]

  ready_loop-busy :
      (n k : ℕ) → ready_loop busy n k ≡ false → (j : ℕ) → k ≤ j → j < k + n → busy j ≡ true
  unfolding ready_loop
  ready_loop-busy zero k e j l h = absurd (omega (arith, l, h))
  ready_loop-busy (suc n) k e j l h = elim (Bool-cases (busy k)) [
    | inl b ↦ elim (Bool-cases (k == j)) [
      | inl same ↦ let q : k ≡ j = ground (arith, same) in subst (λ t. busy t ≡ true) q b
      | inr other ↦
          ready_loop-busy n (k + 1) (ground (arith, e, b)) j (ground (arith, l, other))
            (omega (arith, h))
    ]
    | inr b ↦ absurd (ground (arith, e, b))
  ]

-- What `SMap_Send` does with a packet, and when. It refuses the packet and touches nothing, where there is no
-- link, the packet is too long, it does not fit into what `ComputeFreeSize` reports, or a thousand reads
-- find the EMAC busy; else it puts the packet whole, with at most three bytes behind it, into the FIFO at
-- the end of the range in flight, and its descriptor at the end of the ring.
pub data Result (link : Bool) (busy : ℕ → Bool) (p : Packet) (c : SmapCb) : Send → Type 0 where
  no_link : link ≡ false → Result link busy p c (refused smap_con c)
  too_long : link ≡ true → 1514 < p.tot_len → Result link busy p c (refused smap_err c)
  no_room :
      link ≡ true
      → p.tot_len ≤ 1514
      → compute_free_size c < round4 p.tot_len
      → Result link busy p c (refused smap_tx c)
  not_ready :
      link ≡ true
      → p.tot_len ≤ 1514
      → round4 p.tot_len ≤ compute_free_size c
      → ((k : ℕ) → k < 1000 → busy k ≡ true)
      → Result link busy p c (refused smap_err c)
  sent :
      (s : Send) (rest : List ℕ)
      → link ≡ true
      → p.tot_len ≤ 1514
      → round4 p.tot_len ≤ compute_free_size c
      → IsReady busy
      → s.status ≡ smap_ok
      → s.fifo ≡ some (c.ptr_end, take (round4 p.tot_len) (bytes p ++ rest))
      → s.cb.ptr_end ≡ (c.ptr_end + round4 p.tot_len) % 4096
      → s.cb.ptr_start ≡ c.ptr_start
      → s.cb.index_start ≡ c.index_start
      → s.cb.index_end ≡ (c.index_end + 1) % 64
      → s.cb.bd ≡ set c.bd c.index_end (sent_bd p.tot_len c (bd_at c.bd c.index_end))
      → Result link busy p c s

either_way :
    {link : Bool} {busy : ℕ → Bool} {p : Packet} {c : SmapCb} (b : Bool) {s t : Send}
    → (b ≡ true → Result link busy p c s)
    → (b ≡ false → Result link busy p c t)
    → Result link busy p c (if b then s else t)
either_way true f g = f refl
either_way false f g = g refl

put_packet-Result :
    (link : Bool) (busy : ℕ → Bool) (txbuf : List ℕ) (p : Packet) (c : SmapCb)
    → IsRing c
    → IsPacket p
    → link ≡ true
    → p.tot_len ≤ 1514
    → round4 p.tot_len ≤ compute_free_size c
    → IsReady busy
    → Result link busy p c (put_packet p txbuf c)
unfolding put_packet bd_next
put_packet-Result link busy txbuf p c v w l short fits ready =
    let (rest, e) = source_bytes-bytes p txbuf w in
    sent (put_packet p txbuf c) rest l short fits ready refl
      (ap (λ b. some (c.ptr_end, take (round4 p.tot_len) b)) e) refl refl refl
      (ground (arith, v.last)) refl

-- `SMap_Send` refuses a packet, with the ring as before, exactly where there is no link (SMap_Con), where the
-- packet has more than 1514 bytes (SMap_Err), where its length in words exceeds what `ComputeFreeSize`
-- reports (SMap_TX), or where a thousand reads find the EMAC busy (SMap_Err), in this order. Else its bytes
-- stand in order in the FIFO where the range in flight ended, that end moves on by the length in words,
-- round the buffer of 4096 bytes, and the descriptor at the end of the ring describes the packet.
pub smap_send-Result :
    (link : Bool) (busy : ℕ → Bool) (txbuf : List ℕ) (p : Packet) (c : SmapCb)
    → IsRing c
    → IsPacket p
    → Result link busy p c (smap_send link busy txbuf p c)
unfolding smap_send is_emac_ready IsReady
smap_send-Result link busy txbuf p c v w =
    either_way (not link) (λ l. no_link (ground (arith, l)))
      (λ l.
        let up : link ≡ true = ground (arith, l) in
        either_way (ltb tx_maxsize p.tot_len) (λ e. too_long up (ground (arith, e)))
          (λ short.
            let short' : p.tot_len ≤ 1514 = ground (arith, short) in
            either_way (ltb (compute_free_size c) (round4 p.tot_len))
              (λ e. no_room up short' (ground (arith, e)))
              (λ fits.
                let fits' : round4 p.tot_len ≤ compute_free_size c = ground (arith, fits) in
                either_way (not (is_emac_ready busy))
                  (λ e. not_ready up short' fits' (λ k h.
                    ready_loop-busy busy 1000 0 (ground (arith, e)) k (omega arith)
                      (omega (arith, h))))
                  (λ e.
                    let t = ready_loop-ready busy 1000 0 (ground (arith, e)) in
                    put_packet-Result link busy txbuf p c v w up short' fits'
                      (t.0, omega (arith, t.2), t.3)))))

send_takes :
    (busy : ℕ → Bool) (txbuf : List ℕ) (p : Packet) (c : SmapCb)
    → is_emac_ready busy ≡ true
    → ltb tx_maxsize p.tot_len ≡ false
    → ltb (compute_free_size c) (round4 p.tot_len) ≡ false
    → smap_send true busy txbuf p c ≡ put_packet p txbuf c
unfolding smap_send
send_takes busy txbuf p c ready short fits = rw (smap_send, ready, short, fits) refl

-- The buffer of the FIFO, `mem`, after bytes are written to it one behind the other from an offset on.
unfoldable pub written : List ℕ → ℕ → List ℕ → List ℕ
written mem ptr [] = mem
written mem ptr (b ∷ bs) = written (set mem ptr b) (ptr + 1) bs

unfoldable pub stored : List ℕ → Option (ℕ × List ℕ) → List ℕ
stored mem none = mem
stored mem (some (ptr, bs)) = written mem ptr bs

written-before :
    (bs mem : List ℕ) (ptr k : ℕ) → k < ptr → get_elem? (written mem ptr bs) k ≡ get_elem? mem k
unfolding written
written-before [] mem ptr k h = refl
written-before (b ∷ bs) mem ptr k h =
    written-before bs (set mem ptr b) (ptr + 1) k (omega (arith, h))
    ∙ get_elem?-set_ne mem ptr k b (λ e. omega (arith, e, h))

-- The byte `i` of what is written stands `i` behind the offset.
written-at :
    (bs mem : List ℕ) (ptr i : ℕ)
    → i < length bs
    → ptr + i < length mem
    → get_elem? (written mem ptr bs) (ptr + i) ≡ get_elem? bs i
unfolding written
written-at [] mem ptr i h l = absurd (omega (arith, h))
written-at (b ∷ bs) mem ptr zero h l =
    let here : ptr + 0 ≡ ptr = omega arith in
    rw here (
      written-before bs (set mem ptr b) (ptr + 1) ptr (omega arith)
      ∙ get_elem?-set_self mem ptr b (omega (arith, l)))
written-at (b ∷ bs) mem ptr (suc i) h l =
    let there : ptr + suc i ≡ (ptr + 1) + i = omega arith in
    rw there (
      written-at bs (set mem ptr b) (ptr + 1) i (omega (arith, h))
        (omega (arith, l, length-set mem ptr b)))

get_elem?-front :
    (xs rest : List ℕ) (n i : ℕ)
    → i < length xs
    → i < n
    → (get_elem? (take n (xs ++ rest)) i ≡ get_elem? xs i) × (i < length (take n (xs ++ rest)))
get_elem?-front [] rest n i h l = absurd (omega (arith, h))
get_elem?-front (x ∷ xs) rest zero i h l = absurd (omega (arith, l))
get_elem?-front (x ∷ xs) rest (suc n) zero h l = (refl, omega arith)
get_elem?-front (x ∷ xs) rest (suc n) (suc i) h l =
    let t = get_elem?-front xs rest n i (omega (arith, h)) (omega (arith, l)) in
    (t.0, omega (arith, t.1))

-- The byte at the offset `j` belongs to the oldest frame in flight, which is not sent yet.
pub record IsWaiting (c : SmapCb) (j : ℕ) : Type 0 where
  pub in_flight : c.index_start ≢ c.index_end
  pub not_sent : has (bd_at c.bd c.index_start).ctrl_stat tx_ready ≡ true
  pub from : c.ptr_start ≤ j
  pub before : j < c.ptr_start + (bd_at c.bd c.index_start).length
  pub inside : j < 4096

-- Once the range in flight has wrapped around, `SMap_Send` takes a packet even where it does not fit: each
-- byte of the oldest frame, which the device has not sent yet, that lies where the packet reaches is
-- overwritten by the byte of the packet that falls on it, and the bytes in flight then seem to have become
-- fewer.
pub smap_send-overwrites :
    (busy : ℕ → Bool) (txbuf : List ℕ) (p : Packet) (c : SmapCb) (mem : List ℕ) (j : ℕ)
    → IsRing c
    → IsPacket p
    → is_emac_ready busy ≡ true
    → p.tot_len ≤ 1514
    → c.ptr_end < c.ptr_start
    → round4 p.tot_len ≤ used c
    → length mem ≡ 4096
    → IsWaiting c j
    → j < c.ptr_end + p.tot_len
    → let s = smap_send true busy txbuf p c in
      (s.status ≡ smap_ok)
      × (get_elem? (stored mem s.fifo) j ≡ get_elem? (bytes p) (j - c.ptr_end))
      × (used s.cb < used c)
unfolding put_packet round4 bytes stored used
smap_send-overwrites busy txbuf p c mem j v w ready short wraps enough size o reach =
    let free = compute_free_size-used c v in
    let back : ltb c.ptr_end c.ptr_start ≡ true = ground (arith, wraps) in
    let seems : compute_free_size c ≡ used c = rw back at free in
    let taken =
      send_takes busy txbuf p c ready (ground (arith, short)) (ground (arith, seems, enough)) in
    let i = j - c.ptr_end in
    let (rest, e) = source_bytes-bytes p txbuf w in
    let t =
      get_elem?-front (bytes p) rest (round4 p.tot_len) i
        (omega (arith, w.total, reach, o.from, wraps)) (omega (arith, reach, o.from, wraps)) in
    let at_j : j ≡ c.ptr_end + i = omega (arith, o.from, wraps) in
    let landed : get_elem? (written mem c.ptr_end (take (round4 p.tot_len) (source_bytes p txbuf)))
          j
        ≡ get_elem? (bytes p) i =
      ap (λ n. get_elem? (written mem c.ptr_end (take (round4 p.tot_len) (source_bytes p txbuf))) n)
        at_j
      ∙ rw e (
          written-at (take (round4 p.tot_len) (bytes p ++ rest)) mem c.ptr_end i t.1
            (omega (arith, size, o.inside, at_j))
          ∙ t.0) in
    rw taken (
      refl,
      landed,
      omega (arith, used-put_packet p txbuf c v, used-lt c, short, wraps, reach, o.from, v.start),
    )
