-- ===== src/Linux/Receive/Tests.antt =====
-- smap-linux/smap.c: `HandleRXInt` on a ring that the device fills again once.
use ps2eth.Prelude.{ℕ, ◌+◌, ◌%◌, ◌<◌, ◌≡◌, refl, arith, true, false, [], ◌==◌, if◌then◌else◌}
use ps2eth.Smap.Regs.{rx_empty, rx_badfcs, has}
use ps2eth.Smap.Ring.{Bd}
use ps2eth.Linux.Receive.{Rx, handle_rx_int}
use ps2eth.Linux.Receive.Handles.{Handled, handle_rx_int-Handled}

abbrev frame : ℕ → Bd
frame stat = record { ctrl_stat = stat; length = 60; pointer = 0x4040 }

-- A good frame and one with a bad checksum, before an empty descriptor.
abbrev two_frames : ℕ → ℕ → Bd
two_frames k i = if k == 0 then frame 0 else if k == 1 then frame rx_badfcs else frame rx_empty

abbrev at_last : Rx
at_last = record { index = 63; ptr = 0; no_error = true; actions = [] }

two_frames-full : (j : ℕ) → j < 2 → has (two_frames j ((63 + j) % 64)).ctrl_stat rx_empty ≡ false
two_frames-full j l = ground (arith, l)

handle_rx_int-Handled_example :
    Handled two_frames (λ k n. true) 0 2 at_last (handle_rx_int two_frames (λ k n. true) 3 at_last)
handle_rx_int-Handled_example =
    handle_rx_int-Handled two_frames (λ k n. true) 3 2 at_last (omega arith) (omega arith)
      two_frames-full refl
