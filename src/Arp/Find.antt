-- ===== src/Arp/Find.antt =====
-- Which slot `find_arp_entry` chooses.
use ps2eth.Prelude.{
  ℕ, suc, ◌+◌, ◌≤◌, ◌<◌, ◌≡◌, refl, ◌⊎◌, inl, inr, arith, true, false, ◌&&◌, some, List, [], ◌∷◌,
  All, length, get_elem?, take, leb, Bool-cases, ==_ne, get_elem?-lt, ◌≢◌,
}
use ps2eth.Arp.{
  EtharpEntry, ArpTable, arp_table_size, is_empty, is_stable, pending, find_empty, find_oldest,
  find_arp_entry,
}

abbrev pub IsUsed : EtharpEntry → Type 0
IsUsed e = is_empty e.state ≡ false

-- A stable entry is no older than `c`.
abbrev pub NotOlder : ℕ → EtharpEntry → Type 0
NotOlder c e = is_stable e.state ≡ true → e.ctime ≤ c

abbrev Younger : ℕ → EtharpEntry → Type 0
Younger c e = is_stable e.state ≡ true → e.ctime < c

All-mono {ℓ κ μ} :
    {A : Type ℓ} {P : A → Type κ} {Q : A → Type μ} (xs : List A)
    → ((a : A) → P a → Q a)
    → All P xs
    → All Q xs
All-mono [] f h = tt
All-mono (x ∷ xs) f h = (f x h.0, All-mono xs f h.1)

pub record EmptyAt (t : ArpTable) (k : ℕ) : Type 0 where
  pub entry : EtharpEntry
  pub at : get_elem? t k ≡ some entry
  pub unused : is_empty entry.state ≡ true
  pub first : All IsUsed (take k t)

pub record OldestAt (t : ArpTable) (k : ℕ) : Type 0 where
  pub entry : EtharpEntry
  pub at : get_elem? t k ≡ some entry
  pub settled : is_stable entry.state ≡ true
  pub oldest : All (NotOlder entry.ctime) t

find_empty-cases :
    (t : ArpTable) (i : ℕ)
    → (All IsUsed t × (find_empty t i ≡ i + length t))
      ⊎ ((k : ℕ) × (find_empty t i ≡ i + k) × EmptyAt t k)
unfolding find_empty
find_empty-cases [] i = inl (tt, omega arith)
find_empty-cases (e ∷ es) i = elim (Bool-cases (is_empty e.state)) [
  | inl h ↦ inr (0, rw h (omega arith), record { entry = e; at = refl; unused = h; first = tt })
  | inr h ↦ elim (find_empty-cases es (i + 1)) [
    | inl (u, q) ↦ inl ((h, u), rw h (omega arith))
    | inr (k, q, a) ↦ inr (
      suc k,
      rw h (omega arith),
      record { entry = a.entry; at = a.at; unused = a.unused; first = (h, a.first) },
    )
  ]
]

find_oldest-cases :
    (t : ArpTable) (i maxtime j : ℕ)
    → (All (Younger maxtime) t × (find_oldest t i maxtime j ≡ j))
      ⊎ ((k : ℕ) × (a : OldestAt t k) × (find_oldest t i maxtime j ≡ i + k)
          × (maxtime ≤ a.entry.ctime))
unfolding find_oldest
find_oldest-cases [] i m j = inl (tt, refl)
find_oldest-cases (e ∷ es) i m j = elim (Bool-cases (is_stable e.state && leb m e.ctime)) [
  | inl h ↦ elim (find_oldest-cases es (i + 1) e.ctime i) [
    | inl (y, q) ↦ inr (
      0,
      record {
        entry = e;
        at = refl;
        settled = ground arith;
        oldest = ((λ _. omega arith), All-mono es (λ a g s. omega (arith, g s)) y);
      },
      rw h (omega arith),
      ground arith,
    )
    | inr (k, a, q, le) ↦ inr (
      suc k,
      record { entry = a.entry; at = a.at; settled = a.settled; oldest = ((λ _. le), a.oldest) },
      rw h (omega arith),
      ground arith,
    )
  ]
  | inr h ↦ elim (find_oldest-cases es (i + 1) m j) [
    | inl (y, q) ↦ inl (((λ s. ground arith), y), rw h q)
    | inr (k, a, q, le) ↦ inr (
      suc k,
      record {
        entry = a.entry;
        at = a.at;
        settled = a.settled;
        oldest = ((λ s. ground arith), a.oldest);
      },
      rw h (omega arith),
      le,
    )
  ]
]

-- The slot that a table offers for a new address.
pub data Choice (t : ArpTable) (i : ℕ) : Type 0 where
  unused : EmptyAt t i → Choice t i
  evicted : All IsUsed t → OldestAt t i → Choice t i
  full : i ≡ arp_table_size → All (λ e. e.state ≡ pending) t → Choice t i

All-pending : (t : ArpTable) → All IsUsed t → All (Younger 0) t → All (λ e. e.state ≡ pending) t
All-pending [] u y = tt
All-pending (e ∷ es) u y = (ground (arith, u.0, y.0), All-pending es u.1 y.1)

-- `find_arp_entry` returns the first empty slot if there is one; otherwise a stable entry that is as
-- old as any stable one; and otherwise, with every entry pending, ARP_TABLE_SIZE.
pub find_arp_entry-Choice : (t : ArpTable) → length t ≡ arp_table_size → Choice t (find_arp_entry t)
unfolding find_arp_entry
find_arp_entry-Choice t len = elim (find_empty-cases t 0) [
  | inl (u, q) ↦
      let e : find_empty t 0 ≡ 10 = omega arith in
      rw (e, find_arp_entry) (oldest_choice u (find_oldest-cases t 0 0 arp_table_size))
  | inr (k, q, a) ↦
      let e : find_empty t 0 ≡ k = omega arith in
      rw (e, find_arp_entry, ==_ne k 10 (omega (arith, get_elem?-lt t k a.at))) (unused a)
]
  where
    oldest_choice :
        All IsUsed t
        → (All (Younger 0) t × (find_oldest t 0 0 arp_table_size ≡ arp_table_size))
          ⊎ ((k : ℕ) × (a : OldestAt t k) × (find_oldest t 0 0 arp_table_size ≡ 0 + k)
              × (0 ≤ a.entry.ctime))
        → Choice t (find_oldest t 0 0 arp_table_size)
    oldest_choice u (inl (y, q)) = full q (All-pending t u y)
    oldest_choice u (inr (k, a, q, _)) =
        let e : find_oldest t 0 0 arp_table_size ≡ k = omega arith in rw e (evicted u a)

-- The slot lies in the table unless it is ARP_TABLE_SIZE.
pub Choice-lt : {t : ArpTable} {i : ℕ} → Choice t i → i ≢ arp_table_size → i < length t
Choice-lt {t} {i} (unused a) h = get_elem?-lt t i a.at
Choice-lt {t} {i} (evicted u a) h = get_elem?-lt t i a.at
Choice-lt (full e p) h = absurd (h e)

-- A table that offers no slot is full of pending entries.
pub Choice-full :
    {t : ArpTable} {i : ℕ}
    → length t ≡ arp_table_size
    → i ≡ arp_table_size
    → Choice t i
    → All (λ e. e.state ≡ pending) t
Choice-full {t} {i} len h (unused a) = absurd (omega (arith, get_elem?-lt t i a.at))
Choice-full {t} {i} len h (evicted u a) = absurd (omega (arith, get_elem?-lt t i a.at))
Choice-full len h (full e p) = p
