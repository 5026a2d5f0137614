-- ===== src/Etharp/Input.antt =====
-- Incoming ARP packets: what is sent and freed, and how two hosts learn each other's addresses.
use ps2eth.Prelude.{
  ℕ, ◌≡◌, refl, ap, subst, sym, ◌∙◌, arith, Bool, not, ◌&&◌, some, List, [], ◌∷◌, length, ◌≢◌, ◌==◌,
  ltb, if◌then◌else◌, ◌≤◌,
}
use mathlib.Core.Path.{subst₂}
use ps2eth.Net.{htons, IpAddr, EthAddr, EtharpHdr, Netif, eth_addr_len}
use ps2eth.Arp.{ArpTable, arp_table_size, update_arp_entry, find_arp_entry, find_stable}
use ps2eth.Arp.Table.{IsTable}
use ps2eth.Arp.Ageing.{ticks, update_arp_entry-lifetime}
use ps2eth.Packet.{make_reply, make_request}
use ps2eth.Packet.Header.{
  IsEthernet, IsPacket, asked_packet, answer_packet, make_request-eq, make_reply-eq,
}
use ps2eth.Etharp.{Action, sent, freed, etharp_arp_input, on_request, on_reply}

-- The packet is a request that this interface must answer.
abbrev pub asks_us : Netif → ℕ → EtharpHdr → Bool
asks_us netif tot_len hdr =
    not (ltb tot_len 42)
    && (htons hdr.opcode == 1)
    && not (netif.ip_addr == 0)
    && (hdr.dipaddr == netif.ip_addr)

-- A reply goes out exactly for a whole request for our configured address, before the packet is
-- freed; and on every branch the packet is freed exactly once, as the last thing.
pub etharp_arp_input-actions :
    (netif : Netif) (ethaddr : EthAddr) (tot_len : ℕ) (hdr : EtharpHdr) (t : ArpTable)
    → (etharp_arp_input netif ethaddr tot_len hdr t).1 ≡ (
        if asks_us netif tot_len hdr
        then sent (make_reply netif ethaddr hdr) ∷ freed ∷ []
        else freed ∷ [])
unfolding etharp_arp_input on_request on_reply
etharp_arp_input-actions netif ethaddr tot_len hdr t = ground arith

pub request_answered :
    (netif : Netif) (ethaddr : EthAddr) (tot_len : ℕ) (hdr : EtharpHdr) (t : ArpTable)
    → 42 ≤ tot_len
    → htons hdr.opcode ≡ 1
    → netif.ip_addr ≢ 0
    → hdr.dipaddr ≡ netif.ip_addr
    → etharp_arp_input netif ethaddr tot_len hdr t ≡ (
      update_arp_entry netif hdr.sipaddr hdr.shwaddr 0 t,
      sent (make_reply netif ethaddr hdr) ∷ freed ∷ [],
    )
unfolding etharp_arp_input on_request
request_answered netif ethaddr tot_len hdr t whole op nz us = ground arith

pub reply_taken :
    (netif : Netif) (ethaddr : EthAddr) (tot_len : ℕ) (hdr : EtharpHdr) (t : ArpTable)
    → 42 ≤ tot_len
    → htons hdr.opcode ≡ 2
    → hdr.dipaddr ≡ netif.ip_addr
    → etharp_arp_input netif ethaddr tot_len hdr t
      ≡ (update_arp_entry netif hdr.sipaddr hdr.shwaddr 1 t, freed ∷ [])
unfolding etharp_arp_input on_reply
reply_taken netif ethaddr tot_len hdr t whole op us = ground arith

-- What is learned can be looked up.
pub learned :
    (netif : Netif) (v : IsEthernet netif) (ip : IpAddr) (mac : EthAddr) (flags : ℕ) (t : ArpTable)
    → length mac ≡ eth_addr_len
    → ip ≢ 0
    → IsTable t
    → find_arp_entry t ≢ arp_table_size
    → find_stable ip (update_arp_entry netif ip mac flags t) ≡ some mac
unfolding ticks
learned netif v ip mac flags t len nz tv room =
    update_arp_entry-lifetime netif v.len ip mac len flags 0 t nz tv room

twice_request : htons (htons 1) ≡ 1
unfolding htons
twice_request = refl

twice_reply : htons (htons 2) ≡ 2
unfolding htons
twice_reply = refl

module _ (a b : Netif) (va : IsEthernet a) (vb : IsEthernet b) (h : EtharpHdr)
    (p : IsPacket h) where
  -- The request of `a` for the address of `b`, and the reply that `b` makes of it.
  abbrev pub asking : EtharpHdr
  asking = make_request a b.ip_addr h

  abbrev pub answering : EtharpHdr
  answering = make_reply b b.hwaddr asking

  asking-IsPacket : IsPacket asking
  asking-IsPacket =
      subst IsPacket (sym (make_request-eq a va b.ip_addr h p))
        (record { dest = refl; src = va.six; sender = va.six; target = refl })

  asking-op : htons asking.opcode ≡ 1
  asking-op =
      ap (λ (x : EtharpHdr). htons x.opcode) (make_request-eq a va b.ip_addr h p) ∙ twice_request

  answering-op : htons answering.opcode ≡ 2
  answering-op =
      ap (λ (x : EtharpHdr). htons x.opcode)
        (make_reply-eq b vb b.hwaddr asking vb.six asking-IsPacket)
      ∙ twice_reply

  of_asking : {A : Type 0} (f : EtharpHdr → A) → f asking ≡ f (asked_packet a b.ip_addr)
  of_asking f = ap f (make_request-eq a va b.ip_addr h p)

  of_answering : {A : Type 0} (f : EtharpHdr → A) → f answering ≡ f (answer_packet b asking)
  of_answering f = ap f (make_reply-eq b vb b.hwaddr asking vb.six asking-IsPacket)

  -- Address resolution between two Ethernet hosts. The request that `a` makes for the address of `b`
  -- has `b` answer it and learn the address of `a`; and the answer has `a` learn that of `b`. Both
  -- hosts are configured, both tables have a slot, and the packets arrive whole.
  pub resolution :
      (na nb : ℕ) (ta tb : ArpTable)
      → 42 ≤ na
      → 42 ≤ nb
      → a.ip_addr ≢ 0
      → b.ip_addr ≢ 0
      → IsTable ta
      → IsTable tb
      → find_arp_entry ta ≢ arp_table_size
      → find_arp_entry tb ≢ arp_table_size
      → let (tb', actions) = etharp_arp_input b b.hwaddr nb asking tb in
        (actions ≡ sent answering ∷ freed ∷ [])
        × (find_stable a.ip_addr tb' ≡ some a.hwaddr)
        × (find_stable b.ip_addr (etharp_arp_input a a.hwaddr na answering ta).0 ≡ some b.hwaddr)
  resolution na nb ta tb ha hb za zb ia ib ra rb =
      let sip = of_asking (λ x. x.sipaddr) in
      let shw = of_asking (λ x. x.shwaddr) in
      let sip' = of_answering (λ x. x.sipaddr) in
      let shw' = of_answering (λ x. x.shwaddr) in
      let at_b =
        request_answered b b.hwaddr nb asking tb hb asking-op zb (of_asking (λ x. x.dipaddr)) in
      let at_a =
        reply_taken a a.hwaddr na answering ta ha answering-op
          (of_answering (λ x. x.dipaddr) ∙ sip) in
      (
        ap (λ (r : ArpTable × List Action). r.1) at_b,
        ap (λ (r : ArpTable × List Action). find_stable a.ip_addr r.0) at_b
            ∙ subst₂
                (λ x m.
                  find_stable x (update_arp_entry b asking.sipaddr asking.shwaddr 0 tb) ≡ some m)
                sip shw
                (learned b vb asking.sipaddr asking.shwaddr 0 tb (ap length shw ∙ va.six)
                  (λ e. za (sym sip ∙ e)) ib rb),
        ap (λ (r : ArpTable × List Action). find_stable b.ip_addr r.0) at_a
            ∙ subst₂
                (λ x m.
                  find_stable x (update_arp_entry a answering.sipaddr answering.shwaddr 1 ta)
                  ≡ some m)
                sip' shw'
                (learned a va answering.sipaddr answering.shwaddr 1 ta (ap length shw' ∙ vb.six)
                  (λ e. zb (sym sip' ∙ e)) ia ra),
      )
