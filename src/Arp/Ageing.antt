-- ===== src/Arp/Ageing.antt =====
-- How long an entry lives under `etharp_tmr`.
use ps2eth.Prelude.{
  ℕ, zero, suc, ◌+◌, ◌<◌, ◌≡◌, refl, sym, ap, subst, some-injective, ◌∙◌, arith, if◌then◌else◌, ltb,
  Bool-cases, inl, inr, ◌≢◌, All-get, length, true, false, [], ◌∷◌, some, none, get_elem?, All,
}
use ps2eth.Net.{IpAddr, EthAddr, Netif, eth_addr_len}
use ps2eth.Arp.{
  EtharpEntry, ArpTable, arp_maxage, pending, is_empty, is_stable, tick_entry, etharp_tmr,
  find_stable, find_arp_entry, update_arp_entry, arp_table_size,
}
use ps2eth.Arp.Find.{Choice, unused, evicted, full, find_arp_entry-Choice}
use ps2eth.Arp.Walk.{Lacks}
use ps2eth.Arp.Unique.{Unique, etharp_tmr-Lacks, ipaddr-tick_entry, used-tick_entry}
use ps2eth.Arp.Lookup.{Holds, update_arp_entry-Holds, find_stable-Holds, find_stable-Lacks}
use ps2eth.Arp.Table.{IsTable, etharp_tmr-IsTable, update_arp_entry-IsTable}

-- `n` calls of the timer.
unfoldable pub ticks : ℕ → ArpTable → ArpTable
ticks zero t = t
ticks (suc n) t = ticks n (etharp_tmr t)

tick-settled :
    (e : EtharpEntry)
    → is_stable e.state ≡ true
    → e.ctime + 1 < arp_maxage
    → (is_stable (tick_entry e).state ≡ true)
      × ((tick_entry e).ctime ≡ e.ctime + 1)
      × ((tick_entry e).ipaddr ≡ e.ipaddr)
      × ((tick_entry e).ethaddr ≡ e.ethaddr)
unfolding tick_entry
tick-settled e s h = ground arith

tick-expired :
    (e : EtharpEntry)
    → is_stable e.state ≡ true
    → e.ctime + 1 ≡ arp_maxage
    → is_empty (tick_entry e).state ≡ true
unfolding tick_entry
tick-expired e s h = ground arith

get_elem?-etharp_tmr :
    (t : ArpTable) (i : ℕ) {e : EtharpEntry}
    → get_elem? t i ≡ some e
    → get_elem? (etharp_tmr t) i ≡ some (tick_entry e)
unfolding etharp_tmr
get_elem?-etharp_tmr [] i at = cc
get_elem?-etharp_tmr (x ∷ t) zero at = cc
get_elem?-etharp_tmr (x ∷ t) (suc i) at = get_elem?-etharp_tmr t i at

-- When the only used entry for an address expires, the address is gone.
expired-Lacks :
    (t : ArpTable) (i : ℕ) (e : EtharpEntry)
    → Unique t
    → get_elem? t i ≡ some e
    → is_empty e.state ≡ false
    → is_empty (tick_entry e).state ≡ true
    → All (Lacks e.ipaddr) (etharp_tmr t)
unfolding etharp_tmr
expired-Lacks [] i e u at used gone = cc
expired-Lacks (x ∷ t) zero e u at used gone =
    let q : x ≡ e = some-injective x e at in
    (
      (λ v. cc),
      etharp_tmr-Lacks e.ipaddr t (
          subst (λ y. All (Lacks y.ipaddr) t) q
            (u.0 (ap (λ (y : EtharpEntry). is_empty y.state) q ∙ used))),
    )
expired-Lacks (x ∷ t) (suc i) e u at used gone = (
  (λ v q.
      All-get (Lacks x.ipaddr) t i (u.0 (used-tick_entry x v)) at used
        (sym q ∙ ipaddr-tick_entry x)),
  expired-Lacks t i e u.1 at used gone,
)

module _ (netif : Netif) (six : netif.hwaddr_len ≡ eth_addr_len) (ip : IpAddr) (mac : EthAddr)
    (len : length mac ≡ eth_addr_len) where
  tick-Holds :
      {age : ℕ} {t : ArpTable}
      → age + 1 < arp_maxage
      → Holds netif six ip mac len age t
      → Holds netif six ip mac len (age + 1) (etharp_tmr t)
  tick-Holds {age} {t} young h =
      let parts = tick-settled h.entry h.settled (omega (arith, h.age_eq)) in
      record {
        slot = h.slot;
        entry = tick_entry h.entry;
        at = get_elem?-etharp_tmr t h.slot h.at;
        ip_eq = parts.2 ∙ h.ip_eq;
        mac_eq = parts.3 ∙ h.mac_eq;
        settled = parts.0;
        age_eq = omega (arith, parts.1, h.age_eq);
      }

  tick-Lacks :
      {age : ℕ} {t : ArpTable}
      → age + 1 ≡ arp_maxage
      → IsTable t
      → Holds netif six ip mac len age t
      → All (Lacks ip) (etharp_tmr t)
  tick-Lacks {age} {t} old v h =
      subst (λ a. All (Lacks a) (etharp_tmr t)) h.ip_eq
        (expired-Lacks t h.slot h.entry v.unique h.at (ground (arith, h.settled))
          (tick-expired h.entry h.settled (omega (arith, h.age_eq))))

ticks-Lacks : (n : ℕ) (a : IpAddr) (t : ArpTable) → All (Lacks a) t → All (Lacks a) (ticks n t)
unfolding ticks
ticks-Lacks zero a t ls = ls
ticks-Lacks (suc n) a t ls = ticks-Lacks n a (etharp_tmr t) (etharp_tmr-Lacks a t ls)

-- A stored pair is found until its age reaches ARP_MAXAGE, and not after.
pub lifetime :
    (netif : Netif) (six : netif.hwaddr_len ≡ eth_addr_len) (ip : IpAddr) (mac : EthAddr)
    (len : length mac ≡ eth_addr_len) (n age : ℕ) (t : ArpTable)
    → age < arp_maxage
    → IsTable t
    → Holds netif six ip mac len age t
    → find_stable ip (ticks n t) ≡ (if ltb (age + n) arp_maxage then some mac else none)
unfolding ticks
lifetime netif six ip mac len zero age t young v h =
    ground (arith, find_stable-Holds netif six ip mac len v h)
lifetime netif six ip mac len (suc n) age t young v h =
    elim (Bool-cases (ltb (age + 1) arp_maxage)) [
      | inl more ↦ ground (
        arith,
        lifetime netif six ip mac len n (age + 1) (etharp_tmr t) (ground arith)
            (etharp_tmr-IsTable v) (tick-Holds netif six ip mac len (ground arith) h),
      )
      | inr last ↦ ground (
        arith,
        find_stable-Lacks ip (ticks n (etharp_tmr t))
            (ticks-Lacks n ip (etharp_tmr t) (tick-Lacks netif six ip mac len (ground arith) v h)),
      )
    ]

not-All_pending :
    (t : ArpTable) {i : ℕ} → i ≢ arp_table_size → Choice t i → ¬ All (λ e. e.state ≡ pending) t
not-All_pending t {i} ne (unused a) ps =
    ground (arith, All-get (λ e. e.state ≡ pending) t i ps a.at, a.unused)
not-All_pending t {i} ne (evicted u a) ps =
    ground (arith, All-get (λ e. e.state ≡ pending) t i ps a.at, a.settled)
not-All_pending t ne (full e p) ps = ne e

pub update_arp_entry-lifetime :
    (netif : Netif) (six : netif.hwaddr_len ≡ eth_addr_len) (ip : IpAddr) (mac : EthAddr)
    (len : length mac ≡ eth_addr_len) (flags n : ℕ) (t : ArpTable)
    → ip ≢ 0
    → IsTable t
    → find_arp_entry t ≢ arp_table_size
    → find_stable ip (ticks n (update_arp_entry netif ip mac flags t))
      ≡ (if ltb n arp_maxage then some mac else none)
update_arp_entry-lifetime netif six ip mac len flags n t nz v room =
    elim (update_arp_entry-Holds netif six ip mac len flags nz v) [
      | inl h ↦
          lifetime netif six ip mac len n 0 _ (omega arith)
            (update_arp_entry-IsTable netif ip mac flags v) h
          ∙ (let e : 0 + n ≡ n = omega arith in rw e refl)
      | inr (_, p, _) ↦ absurd (not-All_pending t room (find_arp_entry-Choice t v.size) p)
    ]
