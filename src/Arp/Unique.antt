-- ===== src/Arp/Unique.antt =====
-- No two entries in use have the same address.
use ps2eth.Prelude.{
  ℕ, zero, suc, ◌≡◌, sym, ap, ◌∙◌, arith, some-injective, false, [], ◌∷◌, All, All-set, All-get,
  map, get_elem?, set, some,
}
use ps2eth.Net.{IpAddr, EthAddr, Netif}
use ps2eth.Arp.{
  EtharpEntry, ArpTable, is_empty, tick_entry, etharp_tmr, etharp_init, promote, refresh, new_entry,
}
use ps2eth.Arp.Walk.{Lacks}
use ps2eth.Arp.Cases.{Update, ignored, refreshed, inserted, refused}

abbrev pub Unique : ArpTable → Type 0
Unique [] = Unit {0}
Unique (e ∷ es) = (is_empty e.state ≡ false → All (Lacks e.ipaddr) es) × Unique es

-- Writing an address that no used entry has.
pub Unique-set_new :
    (t : ArpTable) (i : ℕ) (v : EtharpEntry)
    → All (Lacks v.ipaddr) t
    → Unique t
    → Unique (set t i v)
Unique-set_new [] i v ls u = tt
Unique-set_new (e ∷ es) zero v ls u = ((λ _. ls.1), u.1)
Unique-set_new (e ∷ es) (suc i) v ls u = (
  (λ q. All-set (Lacks e.ipaddr) es i v (u.0 q) (λ r s. ls.0 q (sym s))),
  Unique-set_new es i v ls.1 u.1,
)

-- Writing over an entry that is in use and has the same address.
Unique-set_same :
    (t : ArpTable) (i : ℕ) (v e : EtharpEntry)
    → get_elem? t i ≡ some e
    → is_empty e.state ≡ false
    → v.ipaddr ≡ e.ipaddr
    → Unique t
    → Unique (set t i v)
Unique-set_same [] i v e at used same u = tt
Unique-set_same (x ∷ es) zero v e at used same u = ((λ _. same_ip), u.1)
  where
    same_ip : All (Lacks v.ipaddr) es
    same_ip =
        let q : x ≡ e = some-injective x e at in
        let r : v.ipaddr ≡ x.ipaddr = same ∙ ap (λ (y : EtharpEntry). y.ipaddr) (sym q) in
        rw r (u.0 (ap (λ (y : EtharpEntry). is_empty y.state) q ∙ used))
Unique-set_same (x ∷ es) (suc i) v e at used same u = (
  (λ q.
      All-set (Lacks x.ipaddr) es i v (u.0 q)
        (λ r s. All-get (Lacks x.ipaddr) es i (u.0 q) at used (sym same ∙ s))),
  Unique-set_same es i v e at used same u.1,
)

-- A change of each entry that keeps its address and puts no empty entry into use.
module _ (f : EtharpEntry → EtharpEntry) (ip-f : (e : EtharpEntry) → (f e).ipaddr ≡ e.ipaddr)
    (used : (e : EtharpEntry) → is_empty (f e).state ≡ false → is_empty e.state ≡ false) where
  map-Lacks : (a : IpAddr) (t : ArpTable) → All (Lacks a) t → All (Lacks a) (map f t)
  map-Lacks a [] ls = tt
  map-Lacks a (e ∷ es) ls = ((λ q r. ls.0 (used e q) (sym (ip-f e) ∙ r)), map-Lacks a es ls.1)

  map-Unique : (t : ArpTable) → Unique t → Unique (map f t)
  map-Unique [] u = tt
  map-Unique (e ∷ es) u =
      ((λ q. rw (ip-f e) (map-Lacks e.ipaddr es (u.0 (used e q)))), map-Unique es u.1)

pub ipaddr-tick_entry : (e : EtharpEntry) → (tick_entry e).ipaddr ≡ e.ipaddr
unfolding tick_entry
ipaddr-tick_entry e = ground arith

pub used-tick_entry :
    (e : EtharpEntry) → is_empty (tick_entry e).state ≡ false → is_empty e.state ≡ false
unfolding tick_entry
used-tick_entry e h = ground arith

pub etharp_tmr-Lacks : (a : IpAddr) (t : ArpTable) → All (Lacks a) t → All (Lacks a) (etharp_tmr t)
unfolding etharp_tmr
etharp_tmr-Lacks = map-Lacks tick_entry ipaddr-tick_entry used-tick_entry

pub etharp_tmr-Unique : (t : ArpTable) → Unique t → Unique (etharp_tmr t)
unfolding etharp_tmr
etharp_tmr-Unique = map-Unique tick_entry ipaddr-tick_entry used-tick_entry

pub etharp_init-Unique : (t : ArpTable) → Unique (etharp_init t)
unfolding etharp_init
etharp_init-Unique [] = tt
etharp_init-Unique (e ∷ es) = ((λ q. cc), etharp_init-Unique es)

pub ipaddr-refresh :
    (n : ℕ) (mac : EthAddr) (e : EtharpEntry) → (refresh n mac (promote e)).ipaddr ≡ e.ipaddr
unfolding refresh promote
ipaddr-refresh n mac e = ground arith

pub Update-Unique :
    {netif : Netif} {ip : IpAddr} {mac : EthAddr} {t t' : ArpTable}
    → Update netif ip mac t t'
    → Unique t
    → Unique t'
unfolding new_entry
Update-Unique (ignored z e) u = rw e u
Update-Unique (refused nz ls p e) u = rw e u
Update-Unique {netif} {ip} {mac} {t} (refreshed nz w) u =
    rw w.written (
      Unique-set_same t w.slot _ w.entry w.at w.used (ipaddr-refresh netif.hwaddr_len mac w.entry)
        u)
Update-Unique {netif} {ip} {mac} {t} (inserted nz ls w) u =
    rw w.written (Unique-set_new t w.slot _ ls u)

-- Two used entries with one address are one entry.
pub Unique-same :
    (t : ArpTable) (i j : ℕ) {e f : EtharpEntry}
    → Unique t
    → get_elem? t i ≡ some e
    → get_elem? t j ≡ some f
    → is_empty e.state ≡ false
    → is_empty f.state ≡ false
    → e.ipaddr ≡ f.ipaddr
    → e ≡ f
Unique-same [] i j u p q ue uf s = cc
Unique-same (x ∷ t) zero zero u p q ue uf s = cc
Unique-same (x ∷ t) zero (suc j) {e} {f} u p q ue uf s =
    let r : x ≡ e = some-injective x e p in
    absurd (
      All-get (Lacks x.ipaddr) t j (u.0 (ap (λ (y : EtharpEntry). is_empty y.state) r ∙ ue)) q uf
        (sym s ∙ ap (λ (y : EtharpEntry). y.ipaddr) (sym r)))
Unique-same (x ∷ t) (suc i) zero {e} {f} u p q ue uf s =
    let r : x ≡ f = some-injective x f q in
    absurd (
      All-get (Lacks x.ipaddr) t i (u.0 (ap (λ (y : EtharpEntry). is_empty y.state) r ∙ uf)) p ue
        (s ∙ ap (λ (y : EtharpEntry). y.ipaddr) (sym r)))
Unique-same (x ∷ t) (suc i) (suc j) u p q ue uf s = Unique-same t i j u.1 p q ue uf s
