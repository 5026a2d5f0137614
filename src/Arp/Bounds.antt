-- ===== src/Arp/Bounds.antt =====
-- Lengths of addresses and bounds on the time stamps.
use ps2eth.Prelude.{
  ℕ, ◌≡◌, ap, ◌∙◌, arith, true, [], ◌∷◌, All, All-set, All-get, map, length, length-set, ◌<◌,
}
use ps2eth.Net.{IpAddr, EthAddr, Netif, eth_addr_len}
use ps2eth.Net.Copy.{length-copy_loop}
use ps2eth.Arp.{
  EtharpEntry, ArpTable, arp_maxage, arp_maxpending, is_stable, is_pending, tick_entry, etharp_tmr,
  etharp_init, promote, refresh, new_entry,
}
use ps2eth.Arp.Cases.{Update, ignored, refreshed, inserted, refused}

-- An address has six bytes, and an entry in use has not reached its age limit.
pub record IsFresh (e : EtharpEntry) : Type 0 where
  pub six : length e.ethaddr ≡ eth_addr_len
  pub stable_age : is_stable e.state ≡ true → e.ctime < arp_maxage
  pub pending_age : is_pending e.state ≡ true → e.ctime < arp_maxpending

pub tick_entry-IsFresh : (e : EtharpEntry) → IsFresh e → IsFresh (tick_entry e)
unfolding tick_entry
tick_entry-IsFresh e v = record {
  six = ground (arith, v.six);
  stable_age = ground arith;
  pending_age = ground arith;
}

refresh-IsFresh :
    (n : ℕ) (mac : EthAddr) (e : EtharpEntry) → IsFresh e → IsFresh (refresh n mac (promote e))
unfolding refresh promote
refresh-IsFresh n mac e v = record {
  six = ground (arith, length-copy_loop n 0 mac e.ethaddr, v.six);
  stable_age = ground arith;
  pending_age = ground arith;
}

new_entry-IsFresh :
    (n : ℕ) (ip : IpAddr) (mac : EthAddr) (e : EtharpEntry)
    → IsFresh e
    → IsFresh (new_entry n ip mac e)
unfolding new_entry
new_entry-IsFresh n ip mac e v = record {
  six = length-copy_loop n 0 mac e.ethaddr ∙ v.six;
  stable_age = λ _. omega arith;
  pending_age = λ q. cc;
}

module _ (f : EtharpEntry → EtharpEntry)
    (keep : (e : EtharpEntry) → IsFresh e → IsFresh (f e)) where
  map-IsFresh : (t : ArpTable) → All IsFresh t → All IsFresh (map f t)
  map-IsFresh [] v = tt
  map-IsFresh (e ∷ t) v = (keep e v.0, map-IsFresh t v.1)

pub etharp_tmr-IsFresh : (t : ArpTable) → All IsFresh t → All IsFresh (etharp_tmr t)
unfolding etharp_tmr
etharp_tmr-IsFresh = map-IsFresh tick_entry tick_entry-IsFresh

-- Before `etharp_init` only the sizes of the addresses are known.
pub etharp_init-IsFresh :
    (t : ArpTable) → All (λ e. length e.ethaddr ≡ eth_addr_len) t → All IsFresh (etharp_init t)
unfolding etharp_init
etharp_init-IsFresh [] v = tt
etharp_init-IsFresh (e ∷ t) v =
    (record { six = v.0; stable_age = λ q. cc; pending_age = λ q. cc }, etharp_init-IsFresh t v.1)

module _ {netif : Netif} {ip : IpAddr} {mac : EthAddr} where
  pub Update-IsFresh : {t t' : ArpTable} → Update netif ip mac t t' → All IsFresh t → All IsFresh t'
  Update-IsFresh (ignored z e) v = rw e v
  Update-IsFresh (refused nz ls p e) v = rw e v
  Update-IsFresh {t} (refreshed nz w) v = rw w.written (
      All-set IsFresh t w.slot _ v
        (refresh-IsFresh netif.hwaddr_len mac w.entry (All-get IsFresh t w.slot v w.at)))
  Update-IsFresh {t} (inserted nz ls w) v = rw w.written (
      All-set IsFresh t w.slot _ v
        (new_entry-IsFresh netif.hwaddr_len ip mac w.entry (All-get IsFresh t w.slot v w.at)))

  pub Update-length : {t t' : ArpTable} → Update netif ip mac t t' → length t' ≡ length t
  Update-length (ignored z e) = ap length e
  Update-length (refused nz ls p e) = ap length e
  Update-length {t} (refreshed nz w) = rw w.written (length-set t w.slot _)
  Update-length {t} (inserted nz ls w) = rw w.written (length-set t w.slot _)
