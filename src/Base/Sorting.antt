-- ===== src/Base/Sorting.antt =====
-- `std::sort` on indexes, as an insertion sort, and counting.
use Prim.Native.Nat.{ℕ, suc, ◌+◌}
use mathlib.Core.Path.{◌≡◌, refl}
use mathlib.Core.List.{List, [], ◌∷◌, ◌++◌}
use native.Mathlib.Omega.{arith}
use puc.Base.Tests.{leb, ◌==◌, if◌then◌else◌}
use puc.Base.Lists.{length}

abbrev pub count : ℕ → List ℕ → ℕ
count v [] = 0
count v (x ∷ xs) = if x == v then suc (count v xs) else count v xs

pub insert_sorted : ℕ → List ℕ → List ℕ
insert_sorted x [] = x ∷ []
insert_sorted x (y ∷ ys) = if leb x y then x ∷ y ∷ ys else y ∷ insert_sorted x ys

unfoldable pub sort : List ℕ → List ℕ
unfolding insert_sorted
sort [] = []
sort (x ∷ xs) = insert_sorted x (sort xs)

pub count-append : (v : ℕ) (xs ys : List ℕ) → count v (xs ++ ys) ≡ count v xs + count v ys
count-append v [] ys = omega arith
count-append v (x ∷ xs) ys = ground (arith, count-append v xs ys)

count-insert_sorted : (v x : ℕ) (ys : List ℕ) → count v (insert_sorted x ys) ≡ count v (x ∷ ys)
unfolding insert_sorted
count-insert_sorted v x [] = refl
count-insert_sorted v x (y ∷ ys) = ground (arith, count-insert_sorted v x ys)

pub count-sort : (v : ℕ) (xs : List ℕ) → count v (sort xs) ≡ count v xs
unfolding sort
count-sort v [] = refl
count-sort v (x ∷ xs) = ground (arith, count-insert_sorted v x (sort xs), count-sort v xs)

length-insert_sorted : (x : ℕ) (ys : List ℕ) → length (insert_sorted x ys) ≡ suc (length ys)
unfolding insert_sorted
length-insert_sorted x [] = refl
length-insert_sorted x (y ∷ ys) = ground (arith, length-insert_sorted x ys)

pub length-sort : (xs : List ℕ) → length (sort xs) ≡ length xs
unfolding sort
length-sort [] = refl
length-sort (x ∷ xs) = omega (arith, length-insert_sorted x (sort xs), length-sort xs)
