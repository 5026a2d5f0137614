-- ===== src/Etharp/Repeats.antt =====
-- What `etharp_query` does while an answer is awaited. The comment above the function in
-- common/lwip/etharp.c says that no request is sent then; the code sends one.
use ps2eth.Prelude.{ℕ, ◌≡◌, refl, sym, ◌∙◌, arith, true, some, [], ◌∷◌, ℤ, All, All-get, get_elem?}
use ps2eth.Net.{IpAddr, EtharpHdr, Netif}
use ps2eth.Arp.{EtharpEntry, ArpTable, is_pending}
use ps2eth.Arp.Walk.{Lacks}
use ps2eth.Arp.Unique.{Unique-same}
use ps2eth.Arp.Table.{IsTable}
use ps2eth.Packet.{make_request}
use ps2eth.Etharp.{Answer, sent, freed, send_request, etharp_query}
use ps2eth.Etharp.Query.{Queried, resolved, asked_again, asked, no_slot, etharp_query-Queried}

-- A query for an address that already waits for an answer leaves the table alone and sends the
-- request once more, if a packet can be allocated.
pub etharp_query-repeats :
    (netif : Netif) (h : EtharpHdr) (link : EtharpHdr → ℤ) (ip : IpAddr) (t : ArpTable) (k : ℕ)
    {e : EtharpEntry}
    → IsTable t
    → get_elem? t k ≡ some e
    → e.ipaddr ≡ ip
    → is_pending e.state ≡ true
    → etharp_query netif (some h) link ip t ≡ record {
      table = t;
      actions = sent (make_request netif ip h) ∷ freed ∷ [];
      result = link (make_request netif ip h);
    }
unfolding send_request
etharp_query-repeats netif h link ip t k {e} v at same p =
    only_again (etharp_query-Queried netif (some h) link ip t v.size)
  where
    lacking : All (Lacks ip) t → ⊥
    lacking ls = All-get (Lacks ip) t k ls at (ground arith) same

    only_again :
        {a : Answer}
        → Queried netif (some h) link ip t a
        → a ≡ send_request netif (some h) link ip t
    only_again (asked_again j at' same' p') = refl
    only_again (asked j at' c ne ls) = absurd (lacking ls)
    only_again (no_slot ls ps) = absurd (lacking ls)
    only_again (resolved j {e = e'} at' same' s) =
        let one : e ≡ e' =
          Unique-same t k j v.unique at at' (ground arith) (ground arith) (same ∙ sym same') in
        ground arith
