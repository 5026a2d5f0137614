-- ===== src/Klsi/Netif/Serves.antt =====
-- ps2klsi/ps2eth.c: the read thread serves any sequence of transfers, one packet after the other.
use ps2eth.Prelude.{
  ℕ, ◌+◌, ◌≤◌, ◌≡◌, refl, Bool, true, false, Option, none, some, List, [], ◌∷◌, ◌++◌, map, All,
  length, leb, ◌==◌, arith, Bool-cases, Option-cases, inl, inr, if◌then◌else◌,
}
use ps2eth.Net.{htons, Netif, ethtype_arp, ethtype_ip}
use ps2eth.Arp.{ArpTable}
use ps2eth.Arp.Table.{IsTable}
use ps2eth.Etharp.{sent, freed, etharp_ip_input, etharp_arp_input}
use ps2eth.Etharp.Input.{asks_us, etharp_arp_input-actions}
use ps2eth.Etharp.Invariant.{Step-IsTable, ip_input, arp_input}
use ps2eth.Klsi.Frame.{Pbuf, buffer_size, frame_length}
use ps2eth.Klsi.Frame.Input.{total, low_level_input-pieces, low_level_input-no_pbuf}
use ps2eth.Klsi.Netif.{
  Fate, input, arp, free, dispatch, ethernetif_input, Arrival, has_bytes, on_arrival, readthread,
  payload, eth_hdr_at, etharp_hdr_at, ethip_hdr_at,
}

-- How often the packet is given away.
abbrev pub ends : Fate → ℕ
ends (input p) = 1
ends (arp (sent h)) = 0
ends (arp freed) = 1
ends free = 1

pub total_ends : List Fate → ℕ
total_ends [] = 0
total_ends (f ∷ fs) = ends f + total_ends fs

total_ends-append : (fs gs : List Fate) → total_ends (fs ++ gs) ≡ total_ends fs + total_ends gs
unfolding total_ends
total_ends-append [] gs = omega arith
total_ends-append (f ∷ fs) gs = omega (arith, total_ends-append fs gs)

total_ends-arp :
    (b : Bool) (h : _) → total_ends (map arp (if b then sent h ∷ freed ∷ [] else freed ∷ [])) ≡ 1
unfolding total_ends
total_ends-arp true h = refl
total_ends-arp false h = refl

-- A transfer whose length field stays inside of `inbuffer`, with a pool that gives pbufs of the
-- length asked for.
pub record IsSound (a : Arrival) : Type 0 where
  pub size : length a.inbuffer ≡ buffer_size
  pub fits : frame_length a.inbuffer ≤ 1498
  pub pool :
      (lens : List ℕ)
      → a.alloc (frame_length a.inbuffer) ≡ some lens
      → total lens ≡ frame_length a.inbuffer

-- Whether a packet is made of the transfer.
abbrev pub makes_packet : Arrival → ℕ
makes_packet a =
    if has_bytes a.bytesread
    then (elim (a.alloc (frame_length a.inbuffer)) [ none ↦ 0 | some lens ↦ 1 ])
    else 0

pub packets : List Arrival → ℕ
packets [] = 0
packets (a ∷ arrivals) = makes_packet a + packets arrivals

-- The outcome `r` of a run has a well-formed table, and `n` packets given away.
pub record Served (n : ℕ) (r : Option (ArpTable × List Fate)) : Type 0 where
  pub table : ArpTable
  pub fates : List Fate
  pub runs : r ≡ some (table, fates)
  pub valid : IsTable table
  pub once : total_ends fates ≡ n

module _ (strip : Pbuf → Pbuf) (netif : Netif) where
  dispatch-Served :
      (stale : List ℕ) (p : Pbuf) (t : ArpTable)
      → IsTable t
      → Served 1 (some (dispatch strip netif stale p t))
  unfolding dispatch total_ends
  dispatch-Served stale p t v =
      let b = payload stale p.chain in
      let type' = htons (eth_hdr_at b).type in
      elim (Bool-cases (type' == ethtype_ip)) [
        | inl ip ↦ record {
          table = etharp_ip_input netif (ethip_hdr_at b) t;
          fates = input (strip p) ∷ [];
          runs = rw ip refl;
          valid = Step-IsTable (ip_input netif (ethip_hdr_at b)) v;
          once = refl;
        }
        | inr other ↦ elim (Bool-cases (type' == ethtype_arp)) [
          | inl yes_arp ↦
              let done = etharp_arp_input netif netif.hwaddr p.tot_len (etharp_hdr_at b) t in
              record {
                table = done.0;
                fates = map arp done.1;
                runs = rw (other, yes_arp) refl;
                valid = Step-IsTable (arp_input netif netif.hwaddr p.tot_len (etharp_hdr_at b)) v;
                once =
                    rw (etharp_arp_input-actions netif netif.hwaddr p.tot_len (etharp_hdr_at b) t)
                      (total_ends-arp (asks_us netif p.tot_len (etharp_hdr_at b)) _);
              }
          | inr no_arp ↦ record {
            table = t;
            fates = free ∷ [];
            runs = rw (other, no_arp) refl;
            valid = v;
            once = refl;
          }
        ]
      ]

  on_arrival-Served :
      (a : Arrival) (t : ArpTable)
      → IsSound a
      → IsTable t
      → Served (makes_packet a) (on_arrival strip netif a t)
  unfolding on_arrival ethernetif_input total_ends
  on_arrival-Served a t s v =
      let none_made : Served 0 (some (t, [])) = record {
        table = t;
        fates = [];
        runs = refl;
        valid = v;
        once = refl;
      } in
      elim (Bool-cases (has_bytes a.bytesread)) [
        | inr b ↦ rw (on_arrival, b) none_made
        | inl b ↦ elim (Option-cases (a.alloc (frame_length a.inbuffer))) [
          | inl q ↦
              rw (on_arrival, b, q, ethernetif_input, low_level_input-no_pbuf a.alloc a.inbuffer q)
                none_made
          | inr (lens, q) ↦
              let fits : leb (frame_length a.inbuffer) 1498 ≡ true = ground (arith, s.fits) in
              let got = low_level_input-pieces a.alloc a.inbuffer lens s.size q (s.pool lens q) in
              rw (on_arrival, b, q, ethernetif_input, got, fits) (dispatch-Served a.stale _ t v)
        ]
      ]

  -- On transfers that stay inside of the buffer, the read thread ends every round without an access
  -- outside of it, keeps the ARP table well-formed, and gives every packet that it makes away once:
  -- to the stack, or by freeing it.
  pub readthread-Served :
      (arrivals : List Arrival) (t : ArpTable)
      → All IsSound arrivals
      → IsTable t
      → Served (packets arrivals) (readthread strip netif arrivals t)
  unfolding readthread packets total_ends
  readthread-Served [] t s v = record { table = t; fates = []; runs = refl; valid = v; once = refl }
  readthread-Served (a ∷ arrivals) t s v =
      let now = on_arrival-Served a t s.0 v in
      let later = readthread-Served arrivals now.table s.1 now.valid in
      record {
        table = later.table;
        fates = now.fates ++ later.fates;
        runs = rw (readthread, now.runs, later.runs) refl;
        valid = later.valid;
        once = omega (arith, total_ends-append now.fates later.fates, now.once, later.once);
      }
