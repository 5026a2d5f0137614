-- ===== src/Smap/Queue/Chain.antt =====
-- smap/main.c: the list of packets that the pointers of the transmit queue make up.
use ps2eth.Prelude.{
  ℕ, false, ◌≡◌, refl, sym, ap, subst, ◌∙◌, ◌≢◌, Option, none, some, List, [], ◌∷◌, ◌++◌, ◌==◌,
  ==_ne, ==_refl, All,
}
use ps2eth.Smap.Queue.{PBuf, TxQueue, set_next, link_head, en_q_tx_packet, smap_tx_packet_deq}

-- The packets `p ∷ ps` are linked in this order, and the last one links to none.
pub Chain : (ℕ → PBuf) → ℕ → List ℕ → Type 0
Chain heap p [] = (heap p).next ≡ none
Chain heap p (p' ∷ ps) = ((heap p).next ≡ some p') × Chain heap p' ps

pub Distinct : List ℕ → Type 0
Distinct [] = Unit {0}
Distinct (p ∷ ps) = All (λ r. p ≢ r) ps × Distinct ps

abbrev pub last : ℕ → List ℕ → ℕ
last p [] = p
last p (p' ∷ ps) = last p' ps

-- The queue holds the packets of the list, the oldest first.
unfoldable pub Represents : TxQueue → List ℕ → Type 0
unfolding Chain Distinct
Represents q [] = (q.tx_head ≡ none) × (q.tx_tail ≡ none)
Represents q (p ∷ ps) =
    (q.tx_head ≡ some (last p ps))
    × ((q.tx_tail ≡ some p) × (Chain q.heap p ps × Distinct (p ∷ ps)))

All-last : (P : ℕ → Type 0) (p : ℕ) (ps : List ℕ) → P p → All P ps → P (last p ps)
All-last P p [] h hs = h
All-last P p (p' ∷ ps) h hs = All-last P p' ps hs.0 hs.1

last-append : (p : ℕ) (ps : List ℕ) (tx : ℕ) → last p (ps ++ (tx ∷ [])) ≡ tx
last-append p [] tx = refl
last-append p (p' ∷ ps) tx = last-append p' ps tx

set_next-other :
    (heap : ℕ → PBuf) (p : ℕ) (n : Option ℕ) (r : ℕ) → p ≢ r → set_next heap p n r ≡ heap r
set_next-other heap p n r ne = rw (==_ne p r ne) refl

next-set_next : (heap : ℕ → PBuf) (p : ℕ) (n : Option ℕ) → (set_next heap p n p).next ≡ n
next-set_next heap p n = rw (==_refl p) refl

Chain-set_next :
    (heap : ℕ → PBuf) (r : ℕ) (n : Option ℕ) (p : ℕ) (ps : List ℕ)
    → r ≢ p
    → All (λ s. r ≢ s) ps
    → Chain heap p ps
    → Chain (set_next heap r n) p ps
unfolding Chain
Chain-set_next heap r n p [] ne nes c = ap PBuf.next (set_next-other heap r n p ne) ∙ c
Chain-set_next heap r n p (p' ∷ ps) ne nes c = (
  ap PBuf.next (set_next-other heap r n p ne) ∙ c.0,
  Chain-set_next heap r n p' ps nes.0 nes.1 c.1,
)

-- The newest packet is linked to `tx`, which links to none.
Chain-append :
    (heap : ℕ → PBuf) (tx p : ℕ) (ps : List ℕ)
    → tx ≢ p
    → All (λ s. tx ≢ s) ps
    → Distinct (p ∷ ps)
    → Chain heap p ps
    → Chain (set_next (set_next heap (last p ps) (some tx)) tx none) p (ps ++ (tx ∷ []))
unfolding Chain Distinct
Chain-append heap tx p [] ne nes d c = (
  ap PBuf.next (set_next-other (set_next heap p (some tx)) tx none p ne)
      ∙ next-set_next heap p (some tx),
  next-set_next (set_next heap p (some tx)) tx none,
)
Chain-append heap tx p (p' ∷ ps) ne nes d c =
    let l = last p' ps in
    let apart : l ≢ p = λ e. All-last (λ r. p ≢ r) p' ps d.0.0 d.0.1 (sym e) in
    (
      ap PBuf.next (set_next-other (set_next heap l (some tx)) tx none p ne)
          ∙ ap PBuf.next (set_next-other heap l (some tx) p apart)
          ∙ c.0,
      Chain-append heap tx p' ps nes.0 nes.1 d.1 c.1,
    )

Distinct-append :
    (ps : List ℕ) (tx : ℕ) → Distinct ps → All (λ s. tx ≢ s) ps → Distinct (ps ++ (tx ∷ []))
unfolding Distinct
Distinct-append [] tx d nes = (tt, tt)
Distinct-append (p ∷ ps) tx d nes = (apart ps d.0, Distinct-append ps tx d.1 nes.1)
  where
    apart : (rs : List ℕ) → All (λ s. p ≢ s) rs → All (λ s. p ≢ s) (rs ++ (tx ∷ []))
    apart [] a = ((λ e. nes.0 (sym e)), tt)
    apart (r ∷ rs) a = (a.0, apart rs a.1)

-- An empty queue takes its first packet, and any other queue takes it behind the newest.
pub en_q_tx_packet-Represents :
    (q : TxQueue) (tx : ℕ) (ps : List ℕ)
    → All (λ s. tx ≢ s) ps
    → Represents q ps
    → Represents (en_q_tx_packet tx q) (ps ++ (tx ∷ []))
unfolding en_q_tx_packet Represents Chain Distinct
en_q_tx_packet-Represents q tx [] nes r =
    (refl, (rw (r.1, en_q_tx_packet) refl, (next-set_next (link_head tx q) tx none, (tt, tt))))
en_q_tx_packet-Represents q tx (p ∷ ps) nes r =
    let linked : link_head tx q ≡ set_next q.heap (last p ps) (some tx) = rw r.0 refl in
    (
      ap some (sym (last-append p ps tx)),
      (
        rw (r.1.0, en_q_tx_packet) refl,
        (
          subst (λ h. Chain (set_next h tx none) p (ps ++ (tx ∷ []))) (sym linked)
              (Chain-append q.heap tx p ps nes.0 nes.1 r.1.1.1 r.1.1.0),
          Distinct-append (p ∷ ps) tx r.1.1.1 nes,
        ),
      ),
    )

-- The oldest packet leaves, and is the one that is freed.
pub smap_tx_packet_deq-Represents :
    (q : TxQueue) (p : ℕ) (ps : List ℕ)
    → Represents q (p ∷ ps)
    → Represents (smap_tx_packet_deq q).0 ps × ((smap_tx_packet_deq q).1 ≡ some p)
unfolding smap_tx_packet_deq Represents Chain Distinct
smap_tx_packet_deq-Represents q p [] r = (
  (
    rw (r.1.0, smap_tx_packet_deq, r.0, ==_refl p) refl,
    rw (r.1.0, smap_tx_packet_deq, r.0, ==_refl p) refl,
  ),
  rw (r.1.0, smap_tx_packet_deq) refl,
)
smap_tx_packet_deq-Represents q p (p' ∷ ps) r =
    let apart : (p == last p' ps) ≡ false =
      ==_ne p (last p' ps) (All-last (λ s. p ≢ s) p' ps r.1.1.1.0.0 r.1.1.1.0.1) in
    (
      (
        rw (r.1.0, smap_tx_packet_deq, r.0, apart) refl,
        (
          rw (r.1.0, smap_tx_packet_deq, r.0, apart) r.1.1.0.0,
          (
            rw (r.1.0, smap_tx_packet_deq)
                (Chain-set_next q.heap p none p' ps r.1.1.1.0.0 r.1.1.1.0.1 r.1.1.0.1),
            r.1.1.1.1,
          ),
        ),
      ),
      rw (r.1.0, smap_tx_packet_deq) refl,
    )

pub smap_tx_packet_deq-empty :
    (q : TxQueue)
    → Represents q []
    → Represents (smap_tx_packet_deq q).0 [] × ((smap_tx_packet_deq q).1 ≡ none)
unfolding smap_tx_packet_deq Represents
smap_tx_packet_deq-empty q r = (
  (rw (r.1, smap_tx_packet_deq) r.0, rw (r.1, smap_tx_packet_deq) r.1),
  rw (r.1, smap_tx_packet_deq) refl,
)
