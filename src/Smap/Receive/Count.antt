-- ===== src/Smap/Receive/Count.antt =====
-- smap/xfer.c: the actions of `HandleRxIntr`, counted by kind.
use ps2eth.Prelude.{ℕ, ◌+◌, ◌≡◌, List, [], ◌∷◌, ◌++◌, arith}
use ps2eth.Smap.Receive.{RxAction, skip, copy, input, frame_dec}

unfoldable pub total : (RxAction → ℕ) → List RxAction → ℕ
total f [] = 0
total f (a ∷ acts) = f a + total f acts

pub total-append :
    (f : RxAction → ℕ) (xs ys : List RxAction) → total f (xs ++ ys) ≡ total f xs + total f ys
unfolding total
total-append f [] ys = omega arith
total-append f (x ∷ xs) ys = omega (arith, total-append f xs ys)

abbrev pub one_input : RxAction → ℕ
one_input (skip n) = 0
one_input (copy p n) = 0
one_input input = 1
one_input frame_dec = 0

abbrev pub one_skip : RxAction → ℕ
one_skip (skip n) = 1
one_skip (copy p n) = 0
one_skip input = 0
one_skip frame_dec = 0

abbrev pub one_dec : RxAction → ℕ
one_dec (skip n) = 0
one_dec (copy p n) = 0
one_dec input = 0
one_dec frame_dec = 1
