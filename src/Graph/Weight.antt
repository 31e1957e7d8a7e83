-- ===== src/Graph/Weight.antt =====
-- Sums over the nodes of utils/execution_graph/dependency_graph.hpp, weighted by how often a list
-- holds each node.
use puc.Base.{
  ℕ, zero, suc, ◌+◌, ◌*◌, ◌≤◌, ◌<◌, ◌≡◌, refl, sym, ap, subst, inl, inr, List, [], ◌∷◌, ◌++◌, arith,
  ltb, ◌==◌, ltb→lt, Bool-cases, length, All,
}
use puc.Base.Sorting.{count, count-append}

-- The sum over the nodes below `n` of `f`, each as often as the list holds it.
unfoldable pub weight : ℕ → (ℕ → ℕ) → List ℕ → ℕ
weight zero f xs = 0
weight (suc n) f xs = weight n f xs + count n xs * f n

unfoldable pub total : ℕ → (ℕ → ℕ) → ℕ
total zero f = 0
total (suc n) f = total n f + f n

-- Every node at most once.
abbrev pub IsSparse : ℕ → List ℕ → Type 0
IsSparse n xs = (v : ℕ) → v < n → count v xs ≤ 1

weight_above : (n u : ℕ) (f : ℕ → ℕ) (xs : List ℕ) → n ≤ u → weight n f (u ∷ xs) ≡ weight n f xs
unfolding weight
weight_above zero u f xs h = refl
weight_above (suc n) u f xs h = ground (arith, h, weight_above n u f xs)

pub weight-cons :
    (n u : ℕ) (f : ℕ → ℕ) (xs : List ℕ) → u < n → weight n f (u ∷ xs) ≡ f u + weight n f xs
unfolding weight
weight-cons zero u f xs h = absurd (omega arith)
weight-cons (suc n) u f xs h = elim (Bool-cases (u == n)) [
  | inl e ↦
      let q : u ≡ n = ground (arith, e) in
      rw e (grind (arith, ap f q, weight_above n u f xs (omega (arith, q))))
  | inr e ↦ rw e (grind (arith, weight-cons n u f xs (ground (arith, e, h))))
]

pub weight-nil : (n : ℕ) (f : ℕ → ℕ) → weight n f [] ≡ 0
unfolding weight
weight-nil zero f = refl
weight-nil (suc n) f = ground (arith, weight-nil n f)

pub weight-append :
    (n : ℕ) (f : ℕ → ℕ) (xs ys : List ℕ) → weight n f (xs ++ ys) ≡ weight n f xs + weight n f ys
unfolding weight
weight-append zero f xs ys = refl
weight-append (suc n) f xs ys = grind (arith, weight-append n f xs ys, count-append n xs ys)

-- Lists that hold each node as often weigh the same.
pub weight-count :
    (n : ℕ) (f : ℕ → ℕ) (xs ys : List ℕ)
    → ((v : ℕ) → count v xs ≡ count v ys)
    → weight n f xs ≡ weight n f ys
unfolding weight
weight-count zero f xs ys h = refl
weight-count (suc n) f xs ys h = grind (arith, weight-count n f xs ys h, h n)

once : (c d : ℕ) → c ≤ 1 → c * d ≤ d
once zero d h = grind arith
once (suc zero) d h = grind arith
once (suc (suc c)) d h = absurd (omega arith)

pub weight-le-total : (n : ℕ) (f : ℕ → ℕ) (xs : List ℕ) → IsSparse n xs → weight n f xs ≤ total n f
unfolding weight total
weight-le-total zero f xs h = omega arith
weight-le-total (suc n) f xs h = omega (
  arith,
  weight-le-total n f xs (λ v l. h v (omega (arith, l))),
  once (count n xs) (f n) (h n (omega arith)),
)

missed : (c d : ℕ) → c ≤ 1 → c * d < d → c ≡ 0
missed zero d h l = refl
missed (suc zero) d h l = absurd (grind (arith, l))
missed (suc (suc c)) d h l = absurd (omega arith)

some_left : (c d : ℕ) → c * d < d → 0 < d
some_left c zero l = absurd (grind (arith, l))
some_left c (suc d) l = omega arith

-- A list that weighs less than the whole misses a node of some weight.
pub missing_weight :
    (n : ℕ) (f : ℕ → ℕ) (xs : List ℕ)
    → IsSparse n xs
    → weight n f xs < total n f
    → (u : ℕ) × (u < n) × (count u xs ≡ 0) × (0 < f u)
unfolding weight total
missing_weight zero f xs s h = absurd (omega arith)
missing_weight (suc n) f xs s h = elim (Bool-cases (ltb (weight n f xs) (total n f))) [
  | inl l ↦
      let r = missing_weight n f xs (λ v i. s v (omega (arith, i))) (ltb→lt _ _ l) in
      (r.0, omega (arith, r.1), r.2, r.3)
  | inr l ↦ (
    n,
    omega arith,
    missed (count n xs) (f n) (s n (omega arith)) (less (ground (arith, l))),
    some_left (count n xs) (f n) (less (ground (arith, l))),
  )
]
  where
    less : total n f ≤ weight n f xs → count n xs * f n < f n
    less l = omega (arith, l, h)

abbrev pub one : ℕ → ℕ
one v = 1

pub total-one : (n : ℕ) → total n one ≡ n
unfolding total
total-one zero = refl
total-one (suc n) = omega (arith, total-one n)

-- The length of a list of nodes is its weight.
pub length-weight : (n : ℕ) (xs : List ℕ) → All (λ v. v < n) xs → length xs ≡ weight n one xs
length-weight n [] h = sym (weight-nil n one)
length-weight n (x ∷ xs) h = omega (arith, weight-cons n x one xs h.0, length-weight n xs h.1)

full : (c d : ℕ) → 0 < d → d ≤ c * d → 0 < c
full zero d p h = absurd (grind (arith, p, h))
full (suc c) d p h = omega arith

-- A list that weighs as much as the whole holds every node of some weight.
pub full_weight :
    (n : ℕ) (f : ℕ → ℕ) (xs : List ℕ) (u : ℕ)
    → IsSparse n xs
    → total n f ≤ weight n f xs
    → u < n
    → 0 < f u
    → 0 < count u xs
unfolding weight total
full_weight zero f xs u s h l p = absurd (omega arith)
full_weight (suc n) f xs u s h l p =
    let below = λ (v : ℕ) (i : v < n). s v (omega (arith, i)) in
    let t = weight-le-total n f xs below in
    elim (Bool-cases (u == n)) [
      | inl e ↦
          let q : u ≡ n = ground (arith, e) in
          subst (λ (k : ℕ). 0 < count k xs) (sym q)
            (full (count n xs) (f n) (subst (λ (k : ℕ). 0 < f k) q p) (omega (arith, h, t)))
      | inr e ↦
          full_weight n f xs u below (omega (arith, h, once (count n xs) (f n) (s n (omega arith))))
            (ground (arith, e, l)) p
    ]
