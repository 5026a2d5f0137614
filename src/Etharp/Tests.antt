-- ===== src/Etharp/Tests.antt =====
-- The module's theorems on the sample hosts.
use ps2eth.Prelude.{ℕ, ◌≡◌, refl, arith, true, false, some, none, [], ◌∷◌, pos, ap}
use ps2eth.Net.{
  EtharpHdr, htons, htonl, ip_addr_maskcmp, ip_addr_isbroadcast, ip_addr_ismulticast, ethtype_ip,
  ntohl,
}
use ps2eth.Arp.{ArpTable, etharp_init, etharp_tmr, find_stable}
use ps2eth.Arp.Table.{IsTable}
use ps2eth.Packet.{make_reply, make_request, fill_header, ethbroadcast}
use ps2eth.Packet.Loops.{zero_addr}
use ps2eth.Packet.Wire.{etharp_hdr_bytes, arp_bytes, make_reply-bytes, make_request-bytes}
use ps2eth.Etharp.{Output, sent, freed, etharp_arp_input, etharp_query, etharp_output}
use ps2eth.Etharp.Invariant.{Reach, start, next, tmr, output, Reach-IsTable}
use ps2eth.Etharp.Input.{asking, answering, etharp_arp_input-actions, resolution}
use ps2eth.Etharp.Repeats.{etharp_query-repeats}
use ps2eth.Etharp.Send.{Delivered, etharp_output-known, etharp_output-Delivered}
use ps2eth.Etharp.Samples.{
  storage, host_a, host_b, rubbish, accepts, knows_b, waits_b, host_a-IsEthernet, host_b-IsEthernet,
  rubbish-IsPacket, storage-IsStorage, storage-IsTable, knows_b-IsTable, waits_b-IsTable,
  storage_room,
}

abbrev ip_b : ℕ
ip_b = 0x0b00_a8c0

-- What host a does when it sends a packet to host b, once the timer has run.
abbrev first_packet : ArpTable → Output
first_packet t = etharp_output host_a none accepts 0 (some ip_b) rubbish.ethhdr t

history : Reach storage (first_packet (etharp_tmr (etharp_init storage))).table
history = next (next start tmr) (output host_a none accepts 0 (some ip_b) rubbish.ethhdr)

Reach-IsTable_example : IsTable (first_packet (etharp_tmr (etharp_init storage))).table
Reach-IsTable_example = Reach-IsTable storage-IsStorage history

abbrev request_b : EtharpHdr
request_b = asking host_a host_b host_a-IsEthernet host_b-IsEthernet rubbish rubbish-IsPacket

abbrev reply_b : EtharpHdr
reply_b = answering host_a host_b host_a-IsEthernet host_b-IsEthernet rubbish rubbish-IsPacket

resolution_example :
    let (tb, actions) = etharp_arp_input host_b host_b.hwaddr 42 request_b storage in
    (actions ≡ sent reply_b ∷ freed ∷ [])
    × (find_stable 0x0a00_a8c0 tb ≡ some host_a.hwaddr)
    × (find_stable ip_b (etharp_arp_input host_a host_a.hwaddr 60 reply_b storage).0
        ≡ some host_b.hwaddr)
resolution_example =
    resolution host_a host_b host_a-IsEthernet host_b-IsEthernet rubbish rubbish-IsPacket 60 42
      storage storage (omega arith) (omega arith) (omega arith) (omega arith) storage-IsTable
      storage-IsTable storage_room storage_room

is_local_b :
    (ip_addr_isbroadcast ip_b host_a.netmask ≡ false)
    × (ip_addr_ismulticast ip_b ≡ false)
    × (ip_addr_maskcmp ip_b host_a.ip_addr host_a.netmask ≡ true)
    × (find_stable ip_b knows_b ≡ some host_b.hwaddr)
unfolding ip_addr_isbroadcast ip_addr_ismulticast ip_addr_maskcmp find_stable ntohl htonl
is_local_b = (refl, refl, refl, refl)

etharp_output-Delivered_example :
    Delivered host_a (some ip_b) knows_b (fill_header host_a host_b.hwaddr rubbish.ethhdr)
    × ((fill_header host_a host_b.hwaddr rubbish.ethhdr).src ≡ host_a.hwaddr)
    × ((fill_header host_a host_b.hwaddr rubbish.ethhdr).type ≡ htons ethtype_ip)
etharp_output-Delivered_example =
    etharp_output-Delivered host_a host_a-IsEthernet none accepts rubbish.ethhdr refl refl knows_b
      knows_b-IsTable 0 (some ip_b) (ap (λ (o : Output). o.packet) etharp_output-known_instance)
  where
    etharp_output-known_instance : first_packet knows_b ≡ record {
      packet = some (fill_header host_a host_b.hwaddr rubbish.ethhdr);
      query = none;
      table = knows_b;
    }
    etharp_output-known_instance =
        etharp_output-known host_a none accepts rubbish.ethhdr knows_b ip_b host_b.hwaddr
          (omega arith) is_local_b.0 is_local_b.1 is_local_b.2 is_local_b.3

abbrev asks_b : EtharpHdr
asks_b = record rubbish { opcode = 0x100; dipaddr = ip_b }

etharp_arp_input-actions_example :
    (etharp_arp_input host_b host_b.hwaddr 42 asks_b storage).1
    ≡ sent (make_reply host_b host_b.hwaddr asks_b) ∷ freed ∷ []
unfolding htons
etharp_arp_input-actions_example = etharp_arp_input-actions host_b host_b.hwaddr 42 asks_b storage

make_reply-bytes_example :
    etharp_hdr_bytes (make_reply host_b host_b.hwaddr rubbish)
    ≡ arp_bytes rubbish.shwaddr host_b.hwaddr 2 host_b.hwaddr ip_b rubbish.shwaddr 3
make_reply-bytes_example =
    make_reply-bytes host_b host_b-IsEthernet host_b.hwaddr rubbish refl rubbish-IsPacket

host_a_request :
    etharp_hdr_bytes (make_request host_a ip_b rubbish)
    ≡ arp_bytes ethbroadcast host_a.hwaddr 1 host_a.hwaddr 0x0a00_a8c0 zero_addr ip_b
host_a_request = make_request-bytes host_a host_a-IsEthernet ip_b rubbish rubbish-IsPacket

etharp_query-repeats_example : etharp_query host_a (some rubbish) accepts ip_b waits_b ≡ record {
  table = waits_b;
  actions = sent (make_request host_a ip_b rubbish) ∷ freed ∷ [];
  result = pos 0;
}
etharp_query-repeats_example =
    etharp_query-repeats host_a rubbish accepts ip_b waits_b 0 waits_b-IsTable refl refl refl
