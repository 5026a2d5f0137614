-- ===== src/Linux/Requests/Tests.antt =====
-- smap-linux/main.c: the theorems on the queue of requests with two packets in it.
use ps2eth.Prelude.{ℕ, refl, false, [], ◌∷◌, arith, ◌==◌, if◌then◌else◌}
use ps2eth.Linux.Requests.{SmapStatus, smap_ok, smap_tx, Requests, add_to_queue, send_requests}
use ps2eth.Linux.Requests.Fifo.{
  Holds, Represents, Outcome, add_to_queue-Outcome, Sends, send_requests-Sends,
}

-- The packets at 0x100 and 0x200 stand in the last entry and in the first one.
abbrev two_requests : Requests
two_requests = record {
  ap_req_queue = 0x200 ∷ 0 ∷ 0 ∷ 0 ∷ 0 ∷ 0 ∷ 0 ∷ 0x100 ∷ [];
  i_req_nr = 7;
  i_req_cnt = 2;
  i_timeout_cnt = 0;
  send_req = false;
}

two_requests-Represents : Represents two_requests (0x100 ∷ 0x200 ∷ [])
unfolding Holds
two_requests-Represents = record {
  size = refl;
  first = omega arith;
  count = refl;
  room = omega arith;
  holds = (refl, (refl, tt));
}

add_to_queue-Outcome_example :
    Outcome smap_ok 0x300 (0x100 ∷ 0x200 ∷ []) (add_to_queue smap_ok 0x300 two_requests)
add_to_queue-Outcome_example =
    add_to_queue-Outcome smap_ok 0x300 two_requests (0x100 ∷ 0x200 ∷ []) two_requests-Represents

-- The adapter has room for one packet.
abbrev room_for_one : ℕ → SmapStatus
room_for_one k = if k == 0 then smap_ok else smap_tx

send_requests-Sends_example :
    Sends room_for_one 0 (0x100 ∷ 0x200 ∷ []) (send_requests room_for_one 3 0 two_requests)
send_requests-Sends_example =
    send_requests-Sends room_for_one 0 two_requests (0x100 ∷ 0x200 ∷ []) two_requests-Represents
