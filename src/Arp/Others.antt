-- ===== src/Arp/Others.antt =====
-- What `update_arp_entry` does to the addresses that it is not called for.
use ps2eth.Prelude.{
  ℕ, ◌≡◌, sym, ap, ◌∙◌, ◌⊎◌, inl, inr, arith, none, All, All-get, set, ◌≢◌, ◌==◌, Bool-cases,
}
use ps2eth.Net.{IpAddr, EthAddr, Netif}
use ps2eth.Arp.{ArpTable, new_entry, find_stable, update_arp_entry}
use ps2eth.Arp.Find.{IsUsed, Choice, unused, evicted, full}
use ps2eth.Arp.Walk.{Lacks}
use ps2eth.Arp.Cases.{
  Update, ignored, refreshed, inserted, refused, Inserted, update_arp_entry-Update,
}
use ps2eth.Arp.Unique.{ipaddr-refresh}
use ps2eth.Arp.Table.{IsTable}
use ps2eth.Arp.Lookup.{find_stable-set_other, find_stable-set_evict}

-- A lookup of `a` gives the same in both tables, or `a` was forgotten to make room in a table
-- without an empty slot.
abbrev pub KeptOrEvicted : IpAddr → IpAddr → ArpTable → ArpTable → Type 0
KeptOrEvicted a ip t t' =
    (find_stable a t' ≡ find_stable a t)
    ⊎ ((find_stable a t' ≡ none) × All IsUsed t × All (Lacks ip) t)

module _ (netif : Netif) (ip : IpAddr) (mac : EthAddr) (a : IpAddr) (ne : ip ≢ a) where
  Inserted-KeptOrEvicted :
      {t t' : ArpTable}
      → IsTable t
      → All (Lacks ip) t
      → (w : Inserted netif.hwaddr_len ip mac t t') → Choice t w.slot
      → KeptOrEvicted a ip t (set t w.slot (new_entry netif.hwaddr_len ip mac w.entry))
  unfolding new_entry
  Inserted-KeptOrEvicted v ls w (full e p) = absurd (w.proper e)
  Inserted-KeptOrEvicted {t} v ls w (unused o) = inl (
      find_stable-set_other a t w.slot w.entry _ w.at (ground (arith, o.unused, w.at, o.at))
        (λ _. ne))
  Inserted-KeptOrEvicted {t} v ls w (evicted u o) = elim (Bool-cases (w.entry.ipaddr == a)) [
    | inl h ↦ inr (
      find_stable-set_evict a t w.slot w.entry _ v.unique w.at (All-get IsUsed t w.slot u w.at)
          (ground arith) ne,
      u,
      ls,
    )
    | inr h ↦ inl (find_stable-set_other a t w.slot w.entry _ w.at (λ _. ground arith) (λ _. ne))
  ]

  Update-KeptOrEvicted :
      {t t' : ArpTable} → IsTable t → Update netif ip mac t t' → KeptOrEvicted a ip t t'
  Update-KeptOrEvicted v (ignored z e) = inl (ap (find_stable a) e)
  Update-KeptOrEvicted v (refused nz ls p e) = inl (ap (find_stable a) e)
  Update-KeptOrEvicted {t} v (refreshed nz w) = inl (
      rw w.written (
        find_stable-set_other a t w.slot w.entry _ w.at (λ _ q. ne (sym w.same ∙ q))
          (λ _ q. ne (sym w.same ∙ sym (ipaddr-refresh netif.hwaddr_len mac w.entry) ∙ q))))
  Update-KeptOrEvicted v (inserted nz ls w) = rw w.written (Inserted-KeptOrEvicted v ls w w.chosen)

-- Of two addresses the lookup of one at least is as before.
abbrev pub OneKept : IpAddr → IpAddr → ArpTable → ArpTable → Type 0
OneKept a b t t' = (find_stable a t' ≡ find_stable a t) ⊎ (find_stable b t' ≡ find_stable b t)

module _ (netif : Netif) (ip : IpAddr) (mac : EthAddr) (a b : IpAddr) (ne_a : ip ≢ a)
    (ne_b : ip ≢ b) (two : a ≢ b) where
  Inserted-OneKept :
      {t t' : ArpTable}
      → IsTable t
      → (w : Inserted netif.hwaddr_len ip mac t t') → Choice t w.slot
      → OneKept a b t (set t w.slot (new_entry netif.hwaddr_len ip mac w.entry))
  unfolding new_entry
  Inserted-OneKept v w (full e p) = absurd (w.proper e)
  Inserted-OneKept {t} v w (unused o) = inl (
      find_stable-set_other a t w.slot w.entry _ w.at (ground (arith, o.unused, w.at, o.at))
        (λ _. ne_a))
  Inserted-OneKept {t} v w (evicted u o) = elim (Bool-cases (w.entry.ipaddr == a)) [
    | inl h ↦
        let same : w.entry.ipaddr ≡ a = ground (arith, h) in
        inr
          (find_stable-set_other b t w.slot w.entry _ w.at (λ _ q. two (sym same ∙ q)) (λ _. ne_b))
    | inr h ↦ inl (find_stable-set_other a t w.slot w.entry _ w.at (λ _. ground arith) (λ _. ne_a))
  ]

  Update-OneKept : {t t' : ArpTable} → IsTable t → Update netif ip mac t t' → OneKept a b t t'
  Update-OneKept v (ignored z e) = inl (ap (find_stable a) e)
  Update-OneKept v (refused nz ls p e) = inl (ap (find_stable a) e)
  Update-OneKept {t} v (refreshed nz w) = inl (
      rw w.written (
        find_stable-set_other a t w.slot w.entry _ w.at (λ _ q. ne_a (sym w.same ∙ q))
          (λ _ q. ne_a (sym w.same ∙ sym (ipaddr-refresh netif.hwaddr_len mac w.entry) ∙ q))))
  Update-OneKept v (inserted nz ls w) = rw w.written (Inserted-OneKept v w w.chosen)

-- An update for `ip` leaves what is known of any other address, except that it may forget one
-- other address when `ip` is in no used entry and no slot is empty: of any two other addresses one at
-- least is kept. It never invents an answer.
pub update_arp_entry-KeptOrEvicted :
    (netif : Netif) (ip : IpAddr) (mac : EthAddr) (flags : ℕ) {t : ArpTable} (a b : IpAddr)
    → ip ≢ a
    → ip ≢ b
    → a ≢ b
    → IsTable t
    → KeptOrEvicted a ip t (update_arp_entry netif ip mac flags t)
      × OneKept a b t (update_arp_entry netif ip mac flags t)
update_arp_entry-KeptOrEvicted netif ip mac flags {t} a b ne_a ne_b two v =
    let u = update_arp_entry-Update netif ip mac t flags v.size in
    (
      Update-KeptOrEvicted netif ip mac a ne_a v u,
      Update-OneKept netif ip mac a b ne_a ne_b two v u,
    )
