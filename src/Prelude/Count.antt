-- ===== src/Prelude/Count.antt =====
-- How often a number stands in a list.
use Prim.Native.Nat.{ℕ, zero, suc, ◌+◌, ◌≤◌}
use mathlib.Core.Path.{◌≡◌, refl, ap}
use mathlib.Core.List.{List, [], ◌∷◌, ◌++◌}
use mathlib.Core.Option.{some}
use native.Mathlib.Omega.{arith}
use ferros.Prelude.Tests.{◌==◌, if◌then◌else◌}
use ferros.Prelude.Lists.{take, drop, get_elem?}

-- Below, `f` is the number that is counted.
abbrev pub count : ℕ → List ℕ → ℕ
count f [] = 0
count f (y ∷ rest) = (if y == f then 1 else 0) + count f rest

pub count-append :
    (f : ℕ) (front back : List ℕ) → count f (front ++ back) ≡ count f front + count f back
count-append f [] back = ground arith
count-append f (y ∷ front) back = ground (arith, count-append f front back)

pub count-take-suc :
    (a : ℕ) (xs : List ℕ) (n : ℕ) {v : ℕ}
    → get_elem? xs n ≡ some v
    → count a (take (suc n) xs) ≡ count a (take n xs) + (if v == a then 1 else 0)
count-take-suc a [] n h = ground arith
count-take-suc a (x ∷ xs) zero h = ground arith
count-take-suc a (x ∷ xs) (suc n) {v} h = omega (arith, count-take-suc a xs n {v = v} h)

pub count-take-add :
    (a n m : ℕ) (xs : List ℕ)
    → count a (take (n + m) xs) ≡ count a (take n xs) + count a (take m (drop n xs))
count-take-add a zero m xs =
    let e : zero + m ≡ m = omega arith in omega (arith, ap (λ k. count a (take k xs)) e)
count-take-add a (suc n) m [] = count_nil
  where
    take_nil : (k : ℕ) → count a (take k []) ≡ 0
    take_nil zero = refl
    take_nil (suc k) = refl

    count_nil : count a (take (suc n + m) []) ≡ 0 + count a (take m [])
    count_nil = omega (arith, take_nil (suc n + m), take_nil m)
count-take-add a (suc n) m (x ∷ xs) =
    let e : suc n + m ≡ suc (n + m) = omega arith in
    let step : count a (take (suc n + m) (x ∷ xs)) ≡ count a (take (suc (n + m)) (x ∷ xs)) =
      ap (λ k. count a (take k (x ∷ xs))) e in
    omega (arith, step, count-take-add a n m xs)

pub count-take-le : (a n : ℕ) (xs : List ℕ) → count a (take n xs) ≤ count a xs
count-take-le a zero xs = omega arith
count-take-le a (suc n) [] = omega arith
count-take-le a (suc n) (x ∷ xs) = omega (arith, count-take-le a n xs)
