-- ===== src/Arp/Cases.antt =====
-- The outcomes of `update_arp_entry`, as a family that the other proofs take apart.
use ps2eth.Prelude.{
  ℕ, ◌≡◌, inl, inr, ◌≢◌, arith, some, none, All, length, get_elem?, get_elem?-of-lt, set, ◌==◌,
  ==_ne, Bool-cases,
}
use ps2eth.Net.{IpAddr, EthAddr, Netif}
use ps2eth.Arp.{
  EtharpEntry, ArpTable, arp_table_size, new_entry, find_arp_entry, insert_entry, update_walk,
  update_arp_entry, pending,
}
use ps2eth.Arp.Find.{Choice, Choice-lt, Choice-full, find_arp_entry-Choice}
use ps2eth.Arp.Walk.{Lacks, Updated, update_walk-cases}

pub record Inserted (n : ℕ) (ip : IpAddr) (mac : EthAddr) (t t' : ArpTable) : Type 0 where
  pub slot : ℕ
  pub entry : EtharpEntry
  pub at : get_elem? t slot ≡ some entry
  pub chosen : Choice t slot
  pub proper : slot ≢ arp_table_size
  pub written : t' ≡ set t slot (new_entry n ip mac entry)

pub data Update (netif : Netif) (ip : IpAddr) (mac : EthAddr) (t t' : ArpTable) : Type 0 where
  ignored : ip ≡ 0 → t' ≡ t → Update netif ip mac t t'
  refreshed : ip ≢ 0 → Updated netif.hwaddr_len ip mac t t' → Update netif ip mac t t'
  inserted :
      ip ≢ 0 → All (Lacks ip) t → Inserted netif.hwaddr_len ip mac t t' → Update netif ip mac t t'
  refused :
      ip ≢ 0 → All (Lacks ip) t → All (λ e. e.state ≡ pending) t → t' ≡ t → Update netif ip mac t t'

insert_entry-hit :
    (n : ℕ) (ip : IpAddr) (mac : EthAddr) (t : ArpTable) (e : EtharpEntry)
    → find_arp_entry t ≢ arp_table_size
    → get_elem? t (find_arp_entry t) ≡ some e
    → insert_entry n ip mac t ≡ set t (find_arp_entry t) (new_entry n ip mac e)
unfolding insert_entry
insert_entry-hit n ip mac t e h q = rw (==_ne _ _ h, q)

insert_entry-full :
    (n : ℕ) (ip : IpAddr) (mac : EthAddr) (t : ArpTable)
    → find_arp_entry t ≡ arp_table_size
    → insert_entry n ip mac t ≡ t
unfolding insert_entry
insert_entry-full n ip mac t h = rw (h, insert_entry)

module _ (netif : Netif) (ip : IpAddr) (mac : EthAddr) (t : ArpTable) where
  insert-Update :
      length t ≡ arp_table_size
      → ip ≢ 0
      → All (Lacks ip) t
      → Update netif ip mac t (insert_entry netif.hwaddr_len ip mac t)
  insert-Update len nz ls =
      let c = find_arp_entry-Choice t len in
      elim (Bool-cases (find_arp_entry t == arp_table_size)) [
        | inl h ↦
            let full : find_arp_entry t ≡ arp_table_size = ground arith in
            refused nz ls (Choice-full len full c)
              (insert_entry-full netif.hwaddr_len ip mac t full)
        | inr h ↦
            let ne : find_arp_entry t ≢ arp_table_size = ground arith in
            let (e, q) = get_elem?-of-lt t (find_arp_entry t) (Choice-lt c ne) in
            inserted nz ls (record {
              slot = find_arp_entry t;
              entry = e;
              at = q;
              chosen = c;
              proper = ne;
              written = insert_entry-hit netif.hwaddr_len ip mac t e ne q;
            })
      ]

  update-zero : (flags : ℕ) → ip ≡ 0 → update_arp_entry netif ip mac flags t ≡ t
  unfolding update_arp_entry
  update-zero flags h = rw h

  update-found :
      (flags : ℕ) (t' : ArpTable)
      → ip ≢ 0
      → update_walk netif.hwaddr_len ip mac t ≡ some t'
      → update_arp_entry netif ip mac flags t ≡ t'
  unfolding update_arp_entry
  update-found flags t' nz q = rw (==_ne ip 0 nz, q)

  update-absent :
      (flags : ℕ)
      → ip ≢ 0
      → update_walk netif.hwaddr_len ip mac t ≡ none
      → update_arp_entry netif ip mac flags t ≡ insert_entry netif.hwaddr_len ip mac t
  unfolding update_arp_entry
  update-absent flags nz q = rw (==_ne ip 0 nz, q)

  -- Every call of `update_arp_entry` has one of these outcomes.
  pub update_arp_entry-Update :
      (flags : ℕ)
      → length t ≡ arp_table_size
      → Update netif ip mac t (update_arp_entry netif ip mac flags t)
  update_arp_entry-Update flags len = elim (Bool-cases (ip == 0)) [
    | inl h ↦ let z : ip ≡ 0 = ground arith in ignored z (update-zero flags z)
    | inr h ↦
        let nz : ip ≢ 0 = ground arith in
        elim (update_walk-cases netif.hwaddr_len ip mac t) [
          | inl (t', q, w) ↦ rw (update-found flags t' nz q) (refreshed nz w)
          | inr (q, ls) ↦ rw (update-absent flags nz q) (insert-Update len nz ls)
        ]
  ]
