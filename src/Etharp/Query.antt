-- ===== src/Etharp/Query.antt =====
-- `etharp_query`: its search, and its four outcomes.
use ps2eth.Prelude.{
  ℕ, suc, ◌+◌, ◌≡◌, refl, ap, ◌∙◌, inl, inr, ◌≢◌, arith, true, Option, some, none, [], ◌∷◌, ℤ, pos,
  All, length, get_elem?, get_elem?-lt, get_elem?-of-lt, set, ◌==◌, ==_ne, Bool-cases,
}
use ps2eth.Net.{IpAddr, EtharpHdr, Netif}
use ps2eth.Arp.{
  EtharpEntry, ArpTable, arp_table_size, is_pending, is_stable, pending, find_arp_entry,
}
use ps2eth.Arp.Find.{Choice, Choice-lt, Choice-full, find_arp_entry-Choice}
use ps2eth.Arp.Walk.{Lacks}
use ps2eth.Etharp.{Answer, query_walk, send_request, pending_entry, etharp_query}

-- The address in slot `k`, in the state that the test looks for.
record At (t : ArpTable) (ip : IpAddr) (k : ℕ) : Type 0 where
  entry : EtharpEntry
  at : get_elem? t k ≡ some entry
  same : entry.ipaddr ≡ ip

data Walk (ip : IpAddr) (t : ArpTable) (i : ℕ) : Option ℕ → Type 0 where
  known : (k : ℕ) (a : At t ip k) → is_stable a.entry.state ≡ true → Walk ip t i none
  waiting :
      (k : ℕ) (a : At t ip k)
      → is_pending a.entry.state ≡ true
      → {r : ℕ} → r ≡ i + k
      → Walk ip t i (some r)
  absent : All (Lacks ip) t → {r : ℕ} → r ≡ i + length t → Walk ip t i (some r)

later :
    {ip : IpAddr} {t : ArpTable} {i : ℕ} (e : EtharpEntry) {o : Option ℕ}
    → Lacks ip e
    → Walk ip t (i + 1) o
    → Walk ip (e ∷ t) i o
later e l (known k a s) = known (suc k) (record { entry = a.entry; at = a.at; same = a.same }) s
later e l (waiting k a p q) =
    waiting (suc k) (record { entry = a.entry; at = a.at; same = a.same }) p (omega arith)
later e l (absent ls q) = absent (l, ls) (omega arith)

query_walk-Walk : (ip : IpAddr) (t : ArpTable) (i : ℕ) → Walk ip t i (query_walk ip t i)
unfolding query_walk
query_walk-Walk ip [] i = absent tt (omega arith)
query_walk-Walk ip (e ∷ es) i = elim (Bool-cases (ip == e.ipaddr)) [
  | inr h ↦ rw h (later e (λ _ q. ground arith) (query_walk-Walk ip es (i + 1)))
  | inl h ↦ elim (Bool-cases (is_pending e.state)) [
    | inl p ↦
        rw (h, p) (waiting 0 (record { entry = e; at = refl; same = ground arith }) p (omega arith))
    | inr p ↦ elim (Bool-cases (is_stable e.state)) [
      | inl s ↦ rw (h, p, s) (known 0 (record { entry = e; at = refl; same = ground arith }) s)
      | inr s ↦ rw (h, p, s) (later e (λ u. ground arith) (query_walk-Walk ip es (i + 1)))
    ]
  ]
]

-- The outcomes of a query.
pub data Queried (netif : Netif) (fresh : Option EtharpHdr) (link : EtharpHdr → ℤ) (ip : IpAddr)
    (t : ArpTable) : Answer → Type 0 where
  -- A stable entry is known: nothing is done.
  resolved :
      (k : ℕ) {e : EtharpEntry}
      → get_elem? t k ≡ some e
      → e.ipaddr ≡ ip
      → is_stable e.state ≡ true
      → Queried netif fresh link ip t (record { table = t; actions = []; result = pos 0 })
  -- An answer is awaited: the request is sent again.
  asked_again :
      (k : ℕ) {e : EtharpEntry}
      → get_elem? t k ≡ some e
      → e.ipaddr ≡ ip
      → is_pending e.state ≡ true
      → Queried netif fresh link ip t (send_request netif fresh link ip t)
  -- A slot becomes a pending entry, and the request is sent.
  asked :
      (k : ℕ) {e : EtharpEntry}
      → get_elem? t k ≡ some e
      → Choice t k
      → k ≢ arp_table_size
      → All (Lacks ip) t
      → Queried netif fresh link ip t
          (send_request netif fresh link ip (set t k (pending_entry ip e)))
  -- Every slot waits for another answer.
  no_slot :
      All (Lacks ip) t
      → All (λ e. e.state ≡ pending) t
      → Queried netif fresh link ip t (record { table = t; actions = []; result = pos 0 })

module _ (netif : Netif) (fresh : Option EtharpHdr) (link : EtharpHdr → ℤ) (ip : IpAddr)
    (t : ArpTable) where
  nothing : Answer
  nothing = record { table = t; actions = []; result = pos 0 }

  query_known : query_walk ip t 0 ≡ none → etharp_query netif fresh link ip t ≡ nothing
  unfolding etharp_query nothing
  query_known q = rw (q, etharp_query)

  query_waiting :
      (i : ℕ)
      → query_walk ip t 0 ≡ some i
      → i ≢ arp_table_size
      → etharp_query netif fresh link ip t ≡ send_request netif fresh link ip t
  unfolding etharp_query
  query_waiting i q ne = rw (q, etharp_query, ==_ne i arp_table_size ne)

  query_new :
      (e : EtharpEntry)
      → query_walk ip t 0 ≡ some arp_table_size
      → find_arp_entry t ≢ arp_table_size
      → get_elem? t (find_arp_entry t) ≡ some e
      → etharp_query netif fresh link ip t
        ≡ send_request netif fresh link ip (set t (find_arp_entry t) (pending_entry ip e))
  unfolding etharp_query
  query_new e q ne at = rw (q, etharp_query, ==_ne _ _ ne, at)

  query_full :
      query_walk ip t 0 ≡ some arp_table_size
      → find_arp_entry t ≡ arp_table_size
      → etharp_query netif fresh link ip t ≡ nothing
  unfolding etharp_query nothing
  query_full q h = rw (q, etharp_query, h)

  query_absent :
      length t ≡ arp_table_size
      → All (Lacks ip) t
      → query_walk ip t 0 ≡ some arp_table_size
      → Queried netif fresh link ip t (etharp_query netif fresh link ip t)
  unfolding nothing
  query_absent len ls q =
      let c = find_arp_entry-Choice t len in
      elim (Bool-cases (find_arp_entry t == arp_table_size)) [
        | inl h ↦
            let full : find_arp_entry t ≡ arp_table_size = ground arith in
            rw (query_full q full) (no_slot ls (Choice-full len full c))
        | inr h ↦
            let ne : find_arp_entry t ≢ arp_table_size = ground arith in
            let (e, at) = get_elem?-of-lt t (find_arp_entry t) (Choice-lt c ne) in
            rw (query_new e q ne at) (asked (find_arp_entry t) at c ne ls)
      ]

  by_walk :
      (o : Option ℕ)
      → length t ≡ arp_table_size
      → query_walk ip t 0 ≡ o
      → Walk ip t 0 o
      → Queried netif fresh link ip t (etharp_query netif fresh link ip t)
  unfolding nothing
  by_walk none len q (known k a s) = rw (query_known q) (resolved k a.at a.same s)
  by_walk (some r) len q (waiting k a p e) =
      rw (query_waiting r q (omega (arith, get_elem?-lt t k a.at))) (asked_again k a.at a.same p)
  by_walk (some r) len q (absent ls e) =
      let e' : r ≡ arp_table_size = omega arith in query_absent len ls (q ∙ ap some e')

  pub etharp_query-Queried :
      length t ≡ arp_table_size → Queried netif fresh link ip t (etharp_query netif fresh link ip t)
  etharp_query-Queried len = by_walk (query_walk ip t 0) len refl (query_walk-Walk ip t 0)
