-- ===== src/Linux/Ring/Tests.antt =====
-- smap-linux/smap.c: the theorems on the transmit side at concrete rings.
use ps2eth.Prelude.{
  ℕ, ◌<◌, ◌≡◌, refl, Bool, true, false, [], ◌∷◌, arith, replicate, length-replicate, get_elem?,
}
use ps2eth.Linux.Requests.{smap_ok}
use ps2eth.Smap.Regs.{tx_ready}
use ps2eth.Smap.Ring.{Bd, bd_at}
use ps2eth.Linux.Ring.{SmapCb, Packet, smap_send, handle_tx_int, is_emac_ready, ready_loop, round4}
use ps2eth.Linux.Ring.Room.{IsRing, used, Reclaimed, handle_tx_int-Reclaimed}
use ps2eth.Linux.Ring.Sends.{Result, smap_send-Result, smap_send-overwrites, stored, bytes}

abbrev no_bd : Bd
no_bd = record { ctrl_stat = 0; length = 0; pointer = 0 }

-- A frame of 1332 bytes that is not sent yet.
abbrev waiting : Bd
waiting = record { ctrl_stat = tx_ready; length = 1332; pointer = 0 }

-- Three such frames, from 1000 over the end of the buffer to 900.
abbrev wrapped : SmapCb
wrapped = record {
  bd = no_bd ∷ no_bd ∷ no_bd ∷ waiting ∷ waiting ∷ waiting ∷ replicate 58 no_bd;
  ptr_start = 1000;
  ptr_end = 900;
  index_start = 3;
  index_end = 6;
  size = 4096;
}

wrapped-IsRing : IsRing wrapped
wrapped-IsRing = record {
  size = refl;
  start = omega arith;
  end = omega arith;
  first = omega arith;
  last = omega arith;
}

-- The same ring once the first of the frames is sent.
abbrev one_sent : SmapCb
one_sent = record wrapped {
  bd =
      no_bd
      ∷ no_bd
      ∷ no_bd
      ∷ record waiting { ctrl_stat = 0 }
      ∷ waiting
      ∷ waiting
      ∷ replicate 58 no_bd;
}

one_sent-IsRing : IsRing one_sent
one_sent-IsRing = record {
  size = refl;
  start = omega arith;
  end = omega arith;
  first = omega arith;
  last = omega arith;
}

handle_tx_int-Reclaimed_example : Reclaimed true one_sent (handle_tx_int 65 one_sent)
handle_tx_int-Reclaimed_example = handle_tx_int-Reclaimed one_sent one_sent-IsRing

abbrev three_bytes : Packet
three_bytes = record {
  first = 1 ∷ 2 ∷ [];
  more = (3 ∷ []) ∷ [];
  tot_len = 3;
  aligned = true;
  behind = [];
}

abbrev never_busy : ℕ → Bool
never_busy k = false

smap_send-Result_example :
    Result true never_busy three_bytes wrapped
      (smap_send true never_busy (0 ∷ 0 ∷ 0 ∷ 0 ∷ []) three_bytes wrapped)
smap_send-Result_example =
    smap_send-Result true never_busy (0 ∷ 0 ∷ 0 ∷ 0 ∷ []) three_bytes wrapped wrapped-IsRing
      (record { total = refl })

-- 200 bytes with the value 7, which reach from 900 over the start of the oldest frame.
abbrev long_packet : Packet
long_packet = record {
  first = replicate 200 7;
  more = [];
  tot_len = 200;
  aligned = true;
  behind = [];
}

smap_send-overwrites_example :
    let s = smap_send true never_busy [] long_packet wrapped in
    (s.status ≡ smap_ok)
    × (get_elem? (stored (replicate 4096 1) s.fifo) 1000 ≡ get_elem? (bytes long_packet) 100)
    × (used s.cb < used wrapped)
unfolding is_emac_ready ready_loop used round4 bd_at
smap_send-overwrites_example =
    smap_send-overwrites never_busy [] long_packet wrapped (replicate 4096 1) 1000 wrapped-IsRing
      (record { total = refl }) refl (omega arith) (omega arith) (omega arith)
      (length-replicate {A = ℕ} 4096 1)
      (record {
        in_flight = (λ e. omega (arith, e));
        not_sent = refl;
        from = omega arith;
        before = omega arith;
        inside = omega arith;
      })
      (omega arith)
