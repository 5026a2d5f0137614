-- ===== src/Arp/Lookup.antt =====
-- What a lookup by `etharp_output` finds after `update_arp_entry`.
use ps2eth.Prelude.{
  ℕ, zero, suc, ◌≡◌, refl, sym, ap, subst, ◌∙◌, ◌⊎◌, inl, inr, arith, some-injective, true, false,
  some, none, [], ◌∷◌, All, All-get, length, get_elem?, get_elem?-set_self, get_elem?-lt, set, ◌≢◌,
}
use mathlib.Core.Path.{subst₂}
use ps2eth.Net.{IpAddr, EthAddr, Netif, eth_addr_len, copy_addr}
use ps2eth.Net.Copy.{copy_addr-all}
use ps2eth.Arp.{
  EtharpEntry, ArpTable, is_empty, is_stable, pending, promote, refresh, new_entry, find_stable,
  update_arp_entry,
}
use ps2eth.Arp.Walk.{Lacks}
use ps2eth.Arp.Cases.{Update, ignored, refreshed, inserted, refused, update_arp_entry-Update}
use ps2eth.Arp.Bounds.{IsFresh}
use ps2eth.Arp.Unique.{Unique}
use ps2eth.Arp.Table.{IsTable}

find_stable-hit :
    (a : IpAddr) (e : EtharpEntry) (es : ArpTable)
    → is_stable e.state ≡ true
    → a ≡ e.ipaddr
    → find_stable a (e ∷ es) ≡ some e.ethaddr
unfolding find_stable
find_stable-hit a e es s q = ground arith

find_stable-miss :
    (a : IpAddr) (e : EtharpEntry) (es : ArpTable)
    → (is_stable e.state ≡ true → e.ipaddr ≢ a)
    → find_stable a (e ∷ es) ≡ find_stable a es
unfolding find_stable
find_stable-miss a e es h = ground arith

find_stable-tail :
    (a : IpAddr) (e : EtharpEntry) (xs ys : ArpTable)
    → find_stable a xs ≡ find_stable a ys
    → find_stable a (e ∷ xs) ≡ find_stable a (e ∷ ys)
unfolding find_stable
find_stable-tail a e xs ys h = ground arith

pub find_stable-Lacks : (a : IpAddr) (t : ArpTable) → All (Lacks a) t → find_stable a t ≡ none
unfolding find_stable
find_stable-Lacks a [] ls = refl
find_stable-Lacks a (e ∷ es) ls = ground (arith, ls.0, find_stable-Lacks a es ls.1)

-- A stable entry is found under its address.
pub find_stable-at :
    (t : ArpTable) (i : ℕ) (e : EtharpEntry)
    → Unique t
    → get_elem? t i ≡ some e
    → is_stable e.state ≡ true
    → find_stable e.ipaddr t ≡ some e.ethaddr
find_stable-at [] i e u at s = cc
find_stable-at (x ∷ es) zero e u at s =
    let q : x ≡ e = some-injective x e at in
    rw (← q)
      (find_stable-hit x.ipaddr x es (ap (λ (y : EtharpEntry). is_stable y.state) q ∙ s) refl)
find_stable-at (x ∷ es) (suc i) e u at s =
    find_stable-miss e.ipaddr x es
      (λ sx q. All-get (Lacks x.ipaddr) es i (u.0 (ground arith)) at (ground arith) (sym q))
    ∙ find_stable-at es i e u.1 at s

pub find_stable-set_other :
    (a : IpAddr) (t : ArpTable) (i : ℕ) (e v : EtharpEntry)
    → get_elem? t i ≡ some e
    → (is_stable e.state ≡ true → e.ipaddr ≢ a)
    → (is_stable v.state ≡ true → v.ipaddr ≢ a)
    → find_stable a (set t i v) ≡ find_stable a t
find_stable-set_other a [] i e v at he hv = refl
find_stable-set_other a (x ∷ es) zero e v at he hv =
    find_stable-miss a v es hv ∙ sym (find_stable-miss a x es (rw (some-injective x e at) he))
find_stable-set_other a (x ∷ es) (suc i) e v at he hv =
    find_stable-tail a x _ es (find_stable-set_other a es i e v at he hv)

-- Writing another address over the only used entry for `a` makes `a` unknown.
pub find_stable-set_evict :
    (a : IpAddr) (t : ArpTable) (i : ℕ) (e v : EtharpEntry)
    → Unique t
    → get_elem? t i ≡ some e
    → is_empty e.state ≡ false
    → e.ipaddr ≡ a
    → v.ipaddr ≢ a
    → find_stable a (set t i v) ≡ none
find_stable-set_evict a [] i e v u at used same ne = cc
find_stable-set_evict a (x ∷ es) zero e v u at used same ne =
    let q : x ≡ e = some-injective x e at in
    find_stable-miss a v es (λ _. ne)
    ∙ find_stable-Lacks a es (
        subst (λ b. All (Lacks b) es) (ap (λ (y : EtharpEntry). y.ipaddr) q ∙ same)
          (u.0 (ap (λ (y : EtharpEntry). is_empty y.state) q ∙ used)))
find_stable-set_evict a (x ∷ es) (suc i) e v u at used same ne =
    find_stable-miss a x _
      (λ s q. All-get (Lacks x.ipaddr) es i (u.0 (ground arith)) at used (same ∙ sym q))
    ∙ find_stable-set_evict a es i e v u.1 at used same ne

module _ (netif : Netif) (six : netif.hwaddr_len ≡ eth_addr_len) (ip : IpAddr) (mac : EthAddr)
    (len : length mac ≡ eth_addr_len) where
  copied : (old : EthAddr) → length old ≡ eth_addr_len → copy_addr netif.hwaddr_len mac old ≡ mac
  copied old h =
      subst (λ n. copy_addr n mac old ≡ mac) (h ∙ sym six) (copy_addr-all mac old (len ∙ sym h))

  refresh-parts :
      (e : EtharpEntry)
      → IsFresh e
      → is_empty e.state ≡ false
      → let v = refresh netif.hwaddr_len mac (promote e) in
        (v.ipaddr ≡ e.ipaddr) × (v.ethaddr ≡ mac) × (is_stable v.state ≡ true) × (v.ctime ≡ 0)
  unfolding refresh promote
  refresh-parts e f used =
      (ground arith, ground (arith, copied e.ethaddr f.six), ground arith, refl)

  new_entry-parts :
      (e : EtharpEntry)
      → IsFresh e
      → let v = new_entry netif.hwaddr_len ip mac e in
        (v.ipaddr ≡ ip) × (v.ethaddr ≡ mac) × (is_stable v.state ≡ true) × (v.ctime ≡ 0)
  unfolding new_entry
  new_entry-parts e f = (refl, copied e.ethaddr f.six, refl, refl)

  -- A slot of the table holds the pair as a stable entry of the given age.
  pub record Holds (age : ℕ) (t : ArpTable) : Type 0 where
    pub slot : ℕ
    pub entry : EtharpEntry
    pub at : get_elem? t slot ≡ some entry
    pub ip_eq : entry.ipaddr ≡ ip
    pub mac_eq : entry.ethaddr ≡ mac
    pub settled : is_stable entry.state ≡ true
    pub age_eq : entry.ctime ≡ age

  Update-Holds :
      {t t' : ArpTable}
      → ip ≢ 0
      → IsTable t
      → Update netif ip mac t t'
      → Holds 0 t' ⊎ ((t' ≡ t) × All (λ e. e.state ≡ pending) t × All (Lacks ip) t)
  Update-Holds nz v (ignored z e) = absurd (nz z)
  Update-Holds nz v (refused _ ls p e) = inr (e, p, ls)
  Update-Holds {t} nz v (refreshed _ w) =
      let parts = refresh-parts w.entry (All-get IsFresh t w.slot v.fresh w.at) w.used in
      inl (record {
        slot = w.slot;
        entry = refresh netif.hwaddr_len mac (promote w.entry);
        at = rw w.written (get_elem?-set_self t w.slot _ (get_elem?-lt t w.slot w.at));
        ip_eq = parts.0 ∙ w.same;
        mac_eq = parts.1;
        settled = parts.2;
        age_eq = parts.3;
      })
  Update-Holds {t} nz v (inserted _ ls w) =
      let parts = new_entry-parts w.entry (All-get IsFresh t w.slot v.fresh w.at) in
      inl (record {
        slot = w.slot;
        entry = new_entry netif.hwaddr_len ip mac w.entry;
        at = rw w.written (get_elem?-set_self t w.slot _ (get_elem?-lt t w.slot w.at));
        ip_eq = parts.0;
        mac_eq = parts.1;
        settled = parts.2;
        age_eq = parts.3;
      })

  -- The pair is stored with age zero, unless the table lacks the address and all its ten entries
  -- wait for an answer; then nothing changes.
  pub update_arp_entry-Holds :
      (flags : ℕ) {t : ArpTable}
      → ip ≢ 0
      → IsTable t
      → Holds 0 (update_arp_entry netif ip mac flags t)
        ⊎ ((update_arp_entry netif ip mac flags t ≡ t)
            × All (λ e. e.state ≡ pending) t
            × All (Lacks ip) t)
  update_arp_entry-Holds flags {t} nz v =
      Update-Holds nz v (update_arp_entry-Update netif ip mac t flags v.size)

  pub find_stable-Holds :
      {age : ℕ} {t : ArpTable} → IsTable t → Holds age t → find_stable ip t ≡ some mac
  find_stable-Holds {t} v h =
      subst₂ (λ a m. find_stable a t ≡ some m) h.ip_eq h.mac_eq
        (find_stable-at t h.slot h.entry v.unique h.at h.settled)
