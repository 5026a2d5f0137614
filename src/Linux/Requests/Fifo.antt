-- ===== src/Linux/Requests/Fifo.antt =====
-- smap-linux/main.c: the queue of requests is a queue of at most eight packets, in order.
use ps2eth.Prelude.{
  ℕ, suc, ◌+◌, ◌%◌, ◌≤◌, ◌<◌, ◌≡◌, ◌≢◌, ◌⊎◌, refl, sym, ◌∙◌, subst, true, false, Option, some, List,
  [], ◌∷◌, ◌++◌, arith, ◌==◌, ltb, Bool-cases, inl, inr, get_elem?, set, length, length-append,
  length-set, get_elem?-set_self, get_elem?-set_ne,
}
use ps2eth.Linux.Requests.{
  SmapStatus, smap_ok, smap_err, smap_con, smap_tx, Requests, Effect, referenced, freed, Pass,
  is_tx, store_last, add_to_queue, advance, send_requests,
}

-- The packets `ps` stand in the queue from the index `i` on.
unfoldable pub Holds : List ℕ → ℕ → List ℕ → Type 0
Holds q i [] = Unit
Holds q i (p ∷ ps) = (get_elem? q i ≡ some p) × Holds q ((i + 1) % 8) ps

pub record Represents (r : Requests) (ps : List ℕ) : Type 0 where
  pub size : length r.ap_req_queue ≡ 8
  pub first : r.i_req_nr < 8
  pub count : r.i_req_cnt ≡ length ps
  pub room : length ps ≤ 8
  pub holds : Holds r.ap_req_queue r.i_req_nr ps

-- The write at the end makes the packet the last one.
Holds-snoc :
    (q : List ℕ) (i p : ℕ) (ps : List ℕ)
    → length q ≡ 8
    → i < 8
    → length ps < 8
    → Holds q i ps
    → Holds (set q ((i + length ps) % 8) p) i (ps ++ (p ∷ []))
unfolding Holds
Holds-snoc q i p [] size hi h v =
    let here : (i + 0) % 8 ≡ i = omega arith in
    (rw here (get_elem?-set_self q i p (omega (arith, size, hi))), tt)
Holds-snoc q i p (r ∷ ps) size hi h v =
    let n = length ps in
    let other : (i + suc n) % 8 ≢ i = λ e. omega (arith, e, h) in
    let same : ((i + 1) % 8 + n) % 8 ≡ (i + suc n) % 8 = omega arith in
    (
      get_elem?-set_ne q ((i + suc n) % 8) i p other ∙ v.0,
      subst (λ k. Holds (set q k p) ((i + 1) % 8) (ps ++ (p ∷ []))) same
          (Holds-snoc q ((i + 1) % 8) p ps size (omega arith) (omega (arith, h)) v.1),
    )

store_last-Represents :
    (p : ℕ) (r : Requests) (ps : List ℕ)
    → length ps < 8
    → Represents r ps
    → Represents (store_last p r).requests (ps ++ (p ∷ []))
unfolding store_last
store_last-Represents p r ps h v = record {
  size = length-set r.ap_req_queue _ p ∙ v.size;
  first = v.first;
  count = omega (arith, v.count, length-append ps (p ∷ []));
  room = omega (arith, h, length-append ps (p ∷ []));
  holds =
      subst (λ n. Holds (set r.ap_req_queue ((r.i_req_nr + n) % 8) p) r.i_req_nr (ps ++ (p ∷ [])))
        (sym v.count) (Holds-snoc r.ap_req_queue r.i_req_nr p ps v.size v.first h v.holds);
}

-- What a call of `AddToQueue` does to a queue of packets, and its result: into an empty queue the packet
-- goes only if the adapter has no room for it, and another error of the adapter is the result; into a full
-- queue it does not go.
pub data Added (send : SmapStatus) (p : ℕ)
    : List ℕ → List ℕ → List Effect → SmapStatus → Type 0 where
  sent_at_once : send ≡ smap_ok → Added send p [] [] [] smap_ok
  not_sent : (send ≡ smap_err) ⊎ (send ≡ smap_con) → Added send p [] [] [] send
  kept : is_tx send ≡ true → Added send p [] (p ∷ []) (referenced p ∷ []) smap_ok
  queued :
      (q : ℕ) (qs : List ℕ)
      → length (q ∷ qs) < 8
      → Added send p (q ∷ qs) ((q ∷ qs) ++ (p ∷ [])) (referenced p ∷ []) smap_ok
  full : (ps : List ℕ) → length ps ≡ 8 → Added send p ps ps [] smap_tx

not_tx : (send : SmapStatus) (p : ℕ) → is_tx send ≡ false → Added send p [] [] [] send
not_tx smap_ok p e = sent_at_once refl
not_tx smap_err p e = not_sent (inl refl)
not_tx smap_con p e = not_sent (inr refl)
not_tx smap_tx p e = absurd (ground (arith, e))

-- The outcome of a call on a queue that holds the packets `ps`.
pub record Outcome (send : SmapStatus) (p : ℕ) (ps : List ℕ) (a : Pass × SmapStatus) : Type 0 where
  pub left : List ℕ
  pub represents : Represents a.0.requests left
  pub added : Added send p ps left a.0.effects a.1

with_timeout :
    (r : Requests) (ps : List ℕ) (t : ℕ)
    → Represents r ps
    → Represents (record r { i_timeout_cnt = t }) ps
with_timeout r ps t v = record {
  size = v.size;
  first = v.first;
  count = v.count;
  room = v.room;
  holds = v.holds;
}

-- `AddToQueue` on a queue of at most eight packets leaves such a queue, in one of these ways. With no packet
-- waiting the adapter is asked: it sends the packet; or it has no room, and the packet is referenced and
-- becomes the queue; or it answers SMap_Err or SMap_Con, which is the result, and nothing changes. With
-- packets waiting, the packet is referenced and put last where there is room for it; into a queue of eight
-- it does not go, and the result is SMap_TX.
pub add_to_queue-Outcome :
    (send : SmapStatus) (p : ℕ) (r : Requests) (ps : List ℕ)
    → Represents r ps
    → Outcome send p ps (add_to_queue send p r)
unfolding add_to_queue store_last
add_to_queue-Outcome send p r [] v =
    let empty : (r.i_req_cnt == 0) ≡ true = ground (arith, v.count) in
    elim (Bool-cases (is_tx send)) [
      | inl b ↦
          rw (add_to_queue, empty, b)
            (record {
              left = p ∷ [];
              represents =
                  with_timeout (store_last p r).requests (p ∷ []) 0
                    (store_last-Represents p r [] (omega arith) v);
              added = kept b;
            })
      | inr b ↦
          rw (add_to_queue, empty, b)
            (record { left = []; represents = v; added = not_tx send p b })
    ]
add_to_queue-Outcome send p r (q ∷ qs) v =
    let some_left : (r.i_req_cnt == 0) ≡ false = ground (arith, v.count) in
    elim (Bool-cases (ltb r.i_req_cnt 8)) [
      | inl b ↦
          let small : length (q ∷ qs) < 8 = ground (arith, b, v.count) in
          rw (add_to_queue, some_left, b)
            (record {
              left = (q ∷ qs) ++ (p ∷ []);
              represents = store_last-Represents p r (q ∷ qs) small v;
              added = queued q qs small;
            })
      | inr b ↦
          let whole : length (q ∷ qs) ≡ 8 = ground (arith, b, v.count, v.room) in
          rw (add_to_queue, some_left, b)
            (record { left = q ∷ qs; represents = v; added = full (q ∷ qs) whole })
    ]

-- What `SendRequests` does to the packets `ps`, from the `k`-th answer on: those before the first that
-- finds no room are freed, in order, and the others stay.
pub data Drained (send : ℕ → SmapStatus) : ℕ → List ℕ → List ℕ → List Effect → Type 0 where
  emptied : (k : ℕ) → Drained send k [] [] []
  no_room : (k q : ℕ) (qs : List ℕ) → is_tx (send k) ≡ true → Drained send k (q ∷ qs) (q ∷ qs) []
  one_freed :
      (k q : ℕ) (qs left : List ℕ) (es : List Effect)
      → is_tx (send k) ≡ false
      → Drained send (k + 1) qs left es
      → Drained send k (q ∷ qs) left (freed q ∷ es)

pub record Sends (send : ℕ → SmapStatus) (k : ℕ) (ps : List ℕ) (o : Option Pass) : Type 0 where
  pub pass : Pass
  pub left : List ℕ
  pub ends : o ≡ some pass
  pub represents : Represents pass.requests left
  pub drained : Drained send k ps left pass.effects

advance-Represents :
    (r : Requests) (q : ℕ) (qs : List ℕ) → Represents r (q ∷ qs) → Represents (advance r) qs
unfolding advance Holds
advance-Represents r q qs v = record {
  size = v.size;
  first = omega arith;
  count = omega (arith, v.count);
  room = omega (arith, v.room);
  holds = v.holds.1;
}

-- `SendRequests` ends on any queue, with one unit of fuel for each packet and one more: it frees each
-- packet up to the first for which the adapter has no room, and leaves the others in order.
pub send_requests-Sends :
    (send : ℕ → SmapStatus) (k : ℕ) (r : Requests) (ps : List ℕ)
    → Represents r ps
    → Sends send k ps (send_requests send (suc (length ps)) k r)
unfolding send_requests Holds
send_requests-Sends send k r [] v =
    let empty : ltb 0 r.i_req_cnt ≡ false = ground (arith, v.count) in
    rw (send_requests, empty)
      (record {
        pass = record { requests = r; effects = [] };
        left = [];
        ends = refl;
        represents = v;
        drained = emptied k;
      })
send_requests-Sends send k r (q ∷ qs) v =
    let more : ltb 0 r.i_req_cnt ≡ true = ground (arith, v.count) in
    let r0 : Requests = record r { i_timeout_cnt = 0 } in
    elim (Bool-cases (is_tx (send k))) [
      | inl b ↦
          rw (send_requests, more, b)
            (record {
              pass = record { requests = r0; effects = [] };
              left = q ∷ qs;
              ends = refl;
              represents = with_timeout r (q ∷ qs) 0 v;
              drained = no_room k q qs b;
            })
      | inr b ↦
          let rest =
            send_requests-Sends send (k + 1) (advance r0) qs
              (advance-Represents r0 q qs (with_timeout r (q ∷ qs) 0 v)) in
          rw (send_requests, more, b, v.holds.0, rest.ends)
            (record {
              pass = record (rest.pass) { effects = freed q ∷ rest.pass.effects };
              left = rest.left;
              ends = refl;
              represents = rest.represents;
              drained = one_freed k q qs rest.left rest.pass.effects b rest.drained;
            })
    ]
