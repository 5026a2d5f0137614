-- ===== src/Arp/Walk.antt =====
-- What the loop of `update_arp_entry` does to the table.
use ps2eth.Prelude.{
  ℕ, suc, ◌≡◌, refl, ap, ◌⊎◌, inl, inr, ◌≢◌, arith, true, false, some, none, [], ◌∷◌, All,
  get_elem?, set, ◌==◌, Bool-cases,
}
use mathlib.Core.Option
use ps2eth.Net.{IpAddr, EthAddr}
use ps2eth.Arp.{EtharpEntry, ArpTable, is_empty, promote, refresh, update_walk}

-- No entry that is in use has the address.
abbrev pub Lacks : IpAddr → EtharpEntry → Type 0
Lacks a e = is_empty e.state ≡ false → e.ipaddr ≢ a

-- The walk found the address in slot `k`: there the entry is refreshed as a stable one.
pub record Updated (n : ℕ) (ip : IpAddr) (mac : EthAddr) (t t' : ArpTable) : Type 0 where
  pub slot : ℕ
  pub entry : EtharpEntry
  pub at : get_elem? t slot ≡ some entry
  pub used : is_empty entry.state ≡ false
  pub same : entry.ipaddr ≡ ip
  pub written : t' ≡ set t slot (refresh n mac (promote entry))

has_or_Lacks :
    (ip : IpAddr) (e : EtharpEntry)
    → (((ip == e.ipaddr) ≡ true) × (is_empty e.state ≡ false)) ⊎ Lacks ip e
has_or_Lacks ip e = elim (Bool-cases (ip == e.ipaddr)) [
  | inl h ↦ elim (Bool-cases (is_empty e.state)) [ inl u ↦ inr (λ v. cc) | inr u ↦ inl (h, u) ]
  | inr h ↦ inr (λ v q. ground arith)
]

walk_hit :
    (n : ℕ) (ip : IpAddr) (mac : EthAddr) (e : EtharpEntry) (es : ArpTable)
    → (ip == e.ipaddr) ≡ true
    → is_empty e.state ≡ false
    → update_walk n ip mac (e ∷ es) ≡ some (refresh n mac (promote e) ∷ es)
unfolding update_walk promote
walk_hit n ip mac e es h u = ground arith

walk_miss :
    (n : ℕ) (ip : IpAddr) (mac : EthAddr) (e : EtharpEntry) (es : ArpTable)
    → Lacks ip e
    → update_walk n ip mac (e ∷ es) ≡ Option.map (λ es'. e ∷ es') (update_walk n ip mac es)
unfolding update_walk promote
walk_miss n ip mac e es h = ground arith

walk-nil : (n : ℕ) (ip : IpAddr) (mac : EthAddr) → update_walk n ip mac [] ≡ none
unfolding update_walk
walk-nil n ip mac = refl

-- The loop returns exactly if some used entry has the address; then it has refreshed that entry.
pub update_walk-cases :
    (n : ℕ) (ip : IpAddr) (mac : EthAddr) (t : ArpTable)
    → ((t' : ArpTable) × (update_walk n ip mac t ≡ some t') × Updated n ip mac t t')
      ⊎ ((update_walk n ip mac t ≡ none) × All (Lacks ip) t)
update_walk-cases n ip mac [] = inr (walk-nil n ip mac, tt)
update_walk-cases n ip mac (e ∷ es) = elim (has_or_Lacks ip e) [
  | inl (h, u) ↦ inl (
    refresh n mac (promote e) ∷ es,
    walk_hit n ip mac e es h u,
    record { slot = 0; entry = e; at = refl; used = u; same = ground arith; written = refl },
  )
  | inr l ↦ elim (update_walk-cases n ip mac es) [
    | inl (t', q, w) ↦ inl (
      e ∷ t',
      rw (walk_miss n ip mac e es l, q),
      record {
        slot = suc w.slot;
        entry = w.entry;
        at = w.at;
        used = w.used;
        same = w.same;
        written = ap (λ r. e ∷ r) w.written;
      },
    )
    | inr (q, ls) ↦ inr (rw (walk_miss n ip mac e es l, q), (l, ls))
  ]
]
