-- ===== src/Klsi/Netif/Tests.antt =====
-- ps2klsi/ps2eth.c: the theorems on the interface at concrete frames.
use ps2eth.Prelude.{
  ℕ, ◌≡◌, refl, ap, sym, true, false, Option, none, some, List, [], ◌∷◌, ◌++◌, length, replicate,
  length-replicate, joined, drop, pos, negsuc, arith, some-injective,
}
use ps2eth.Net.{EthHdr, ip_addr_isbroadcast, ip_addr_ismulticast, ip_addr_maskcmp, ntohl, htonl}
use ps2eth.Arp.{find_stable}
use ps2eth.Etharp.Samples.{
  host_a, host_b, host_a-IsEthernet, rubbish, storage, storage-IsTable, knows_b, accepts,
}
use ps2eth.Packet.Wire.{etharp_hdr_bytes}
use ps2eth.Klsi.Frame.{
  Pbuf, buffer_size, frame_length, Transfer, low_level_output, low_level_input, packet,
}
use ps2eth.Klsi.Frame.Wire.{wire, low_level_output-wire}
use ps2eth.Klsi.Frame.Input.{
  total, pieces, low_level_input-pieces, low_level_input-low_level_output,
}
use ps2eth.Klsi.Netif.{Arrival, readthread, ethernetif_output}
use ps2eth.Klsi.Netif.Serves.{IsSound, packets, Served, readthread-Served}
use ps2eth.Klsi.Netif.Sends.{ip_frame, ethernetif_output-known}

abbrev small_packet : Pbuf
small_packet = record { chain = (7 ∷ 8 ∷ []) ∷ (9 ∷ []) ∷ []; tot_len = 3 }

abbrev zeroes : List ℕ
zeroes = replicate 1500 0

zeroes-length : length zeroes ≡ buffer_size
zeroes-length = length-replicate {A = ℕ} 1500 0

low_level_output-wire_example :
    low_level_output small_packet zeroes
    ≡ some (record { outbuffer = wire small_packet ++ drop 5 zeroes; sent = wire small_packet })
low_level_output-wire_example = low_level_output-wire small_packet zeroes zeroes-length refl

-- The pool gives two pbufs, of one byte and of the rest.
abbrev two_pbufs : ℕ → Option (List ℕ)
two_pbufs n = some (1 ∷ 2 ∷ [])

abbrev in_buffer : List ℕ
in_buffer = 3 ∷ 0 ∷ 7 ∷ 8 ∷ 9 ∷ replicate 1495 0

in_buffer-length : length in_buffer ≡ buffer_size
in_buffer-length = omega (arith, length-replicate {A = ℕ} 1495 0)

frame_length-in_buffer : frame_length in_buffer ≡ 3
unfolding frame_length
frame_length-in_buffer = refl

low_level_input-pieces_example :
    low_level_input two_pbufs in_buffer
    ≡ packet (record { chain = pieces (1 ∷ 2 ∷ []) (drop 2 in_buffer); tot_len = 3 })
unfolding frame_length total
low_level_input-pieces_example =
    low_level_input-pieces two_pbufs in_buffer (1 ∷ 2 ∷ []) in_buffer-length refl refl

low_level_input-low_level_output_example :
    (t : Transfer) × (qs : List (List ℕ)) × (low_level_output small_packet zeroes ≡ some t)
    × (low_level_input two_pbufs (t.sent ++ replicate 1495 0)
        ≡ packet (record { chain = qs; tot_len = 3 }))
    × (joined qs ≡ joined small_packet.chain)
unfolding total wire
low_level_input-low_level_output_example =
    low_level_input-low_level_output two_pbufs (1 ∷ 2 ∷ []) small_packet zeroes (replicate 1495 0)
      zeroes-length refl (omega arith) refl refl in_buffer-length

abbrev arp_eth : EthHdr
arp_eth = record (rubbish.ethhdr) { type = 0x0608 }

-- A frame with an ARP packet of 42 bytes, then an error, then one byte.
abbrev arp_arrival : Arrival
arp_arrival = record {
  bytesread = pos 44;
  inbuffer = 42 ∷ 0 ∷ etharp_hdr_bytes (record rubbish { ethhdr = arp_eth }) ++ replicate 1456 0;
  alloc = λ n. some (n ∷ []);
  stale = [];
}

abbrev failed_arrival : Arrival
failed_arrival = record arp_arrival { bytesread = negsuc 0 }

-- Such a transfer, whatever its result.
arp_arrival-IsSound : IsSound arp_arrival
unfolding frame_length total
arp_arrival-IsSound = record {
  size = omega (arith, length-replicate {A = ℕ} 1456 0);
  fits = omega arith;
  pool = λ lens q. ap total (sym (some-injective _ _ q));
}

failed_arrival-IsSound : IsSound failed_arrival
failed_arrival-IsSound = record {
  size = arp_arrival-IsSound.size;
  fits = arp_arrival-IsSound.fits;
  pool = arp_arrival-IsSound.pool;
}

readthread-Served_example :
    Served
      (packets (arp_arrival ∷ failed_arrival ∷ []))
      (readthread (λ p. p) host_b (arp_arrival ∷ failed_arrival ∷ []) storage)
readthread-Served_example =
    readthread-Served (λ p. p) host_b (arp_arrival ∷ failed_arrival ∷ []) storage
      (arp_arrival-IsSound, (failed_arrival-IsSound, tt)) storage-IsTable

ip_b_facts :
    (ip_addr_isbroadcast host_b.ip_addr host_a.netmask ≡ false)
    × (ip_addr_ismulticast host_b.ip_addr ≡ false)
    × (ip_addr_maskcmp host_b.ip_addr host_a.ip_addr host_a.netmask ≡ true)
    × (find_stable host_b.ip_addr knows_b ≡ some host_b.hwaddr)
unfolding ip_addr_isbroadcast ip_addr_ismulticast ip_addr_maskcmp find_stable ntohl htonl
ip_b_facts = (refl, refl, refl, refl)

ethernetif_output-known_example :
    ethernetif_output host_a none accepts 0
      (some host_b.ip_addr)
      rubbish.ethhdr
      small_packet
      zeroes
      knows_b
    ≡ record {
      transfer = some (
          some (record {
            outbuffer = ip_frame host_b.hwaddr host_a.hwaddr 3 (7 ∷ 8 ∷ 9 ∷ []) ++ drop 19 zeroes;
            sent = ip_frame host_b.hwaddr host_a.hwaddr 3 (7 ∷ 8 ∷ 9 ∷ []);
          }));
      table = knows_b;
    }
ethernetif_output-known_example =
    ethernetif_output-known host_a host_a-IsEthernet none accepts rubbish.ethhdr refl refl knows_b
      host_b.ip_addr host_b.hwaddr (7 ∷ 8 ∷ []) ((9 ∷ []) ∷ []) zeroes (omega arith) ip_b_facts.0
      ip_b_facts.1 ip_b_facts.2 ip_b_facts.3 refl zeroes-length (omega arith)
