-- ===== src/Prelude/Slices.antt =====
-- `take` and `drop` on lists, and the concatenation of a list of lists.
use Prim.Native.Nat.{ℕ, zero, suc, ◌+◌, ◌-◌, ◌≤◌}
use mathlib.Core.Path.{◌≡◌, refl, ap, sym, ◌∙◌}
use mathlib.Core.List.{List, [], ◌∷◌, ◌++◌}
use native.Mathlib.Omega.{arith}
use ps2eth.Prelude.Lists.{length, take, drop}

module _ {ℓ} {A : Type ℓ} where
  abbrev pub joined : List (List A) → List A
  joined [] = []
  joined (q ∷ qs) = q ++ joined qs

  pub take-append : (xs ys : List A) (n : ℕ) → n ≡ length xs → take n (xs ++ ys) ≡ xs
  take-append [] ys n e = rw e refl
  take-append (x ∷ xs) ys zero e = absurd (omega arith)
  take-append (x ∷ xs) ys (suc n) e = ap (λ rs. x ∷ rs) (take-append xs ys n (omega arith))

  pub drop-append : (xs ys : List A) (n k : ℕ) → n ≡ length xs + k → drop n (xs ++ ys) ≡ drop k ys
  drop-append [] ys n k e = let z : n ≡ k = omega arith in rw z refl
  drop-append (x ∷ xs) ys zero k e = absurd (omega arith)
  drop-append (x ∷ xs) ys (suc n) k e = drop-append xs ys n k (omega arith)

  take_nil : (n : ℕ) → take {A = A} n [] ≡ []
  take_nil zero = refl
  take_nil (suc n) = refl

  drop_nil : (n : ℕ) → drop {A = A} n [] ≡ []
  drop_nil zero = refl
  drop_nil (suc n) = refl

  pub drop-drop : (xs : List A) (n k : ℕ) → drop k (drop n xs) ≡ drop (n + k) xs
  drop-drop xs zero k = let z : 0 + k ≡ k = omega arith in rw z refl
  drop-drop [] (suc n) k = drop_nil k ∙ sym (drop_nil (suc n + k))
  drop-drop (x ∷ xs) (suc n) k =
      let z : suc n + k ≡ suc (n + k) = omega arith in rw z (drop-drop xs n k)

  pub length-drop : (xs : List A) (n : ℕ) → length (drop n xs) ≡ length xs - n
  length-drop xs zero = omega arith
  length-drop [] (suc n) = omega arith
  length-drop (x ∷ xs) (suc n) = omega (arith, length-drop xs n)

  pub length-take : (xs : List A) (n : ℕ) → n ≤ length xs → length (take n xs) ≡ n
  length-take xs zero h = refl
  length-take [] (suc n) h = absurd (omega arith)
  length-take (x ∷ xs) (suc n) h = ap suc (length-take xs n (omega arith))

  pub take-add : (xs : List A) (n k : ℕ) → take (n + k) xs ≡ (take n xs ++ take k (drop n xs))
  take-add xs zero k = let z : 0 + k ≡ k = omega arith in rw z refl
  take-add [] (suc n) k = take_nil (suc n + k) ∙ sym (take_nil k)
  take-add (x ∷ xs) (suc n) k =
      let z : suc n + k ≡ suc (n + k) = omega arith in rw z (ap (λ rs. x ∷ rs) (take-add xs n k))
