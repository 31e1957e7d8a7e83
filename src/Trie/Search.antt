-- ===== src/Trie/Search.antt =====
-- The search of a sorted child list in utils/containers/trie.hpp: halving finds what a scan finds.
use puc.Base.{
  ℕ, zero, suc, ◌+◌, ◌-◌, ◌/◌, ◌≤◌, ◌<◌, ◌≡◌, refl, sym, ap, ◌∙◌, inl, inr, Bool, true, false,
  Option, none, some, List, [], ◌∷◌, arith, ltb, if◌then◌else◌, Bool-cases, length, get_elem?,
  get_or, All, All-map,
}
use puc.Base.Sorting.{count}
use puc.Trie.{TrieKey, lower_bound_from, lower_bound, scan}

-- The number of elements in front that satisfy a test.
unfoldable pub prefix_length : (ℕ → Bool) → List ℕ → ℕ
prefix_length before [] = 0
prefix_length before (x ∷ xs) = if before x then suc (prefix_length before xs) else 0

prefix_length_le : (before : ℕ → Bool) (xs : List ℕ) → prefix_length before xs ≤ length xs
unfolding prefix_length
prefix_length_le before [] = omega arith
prefix_length_le before (x ∷ xs) = ground (arith, prefix_length_le before xs)

-- The elements that satisfy the test are those in front.
abbrev pub IsPartitioned : (ℕ → Bool) → List ℕ → Type 0
IsPartitioned before xs =
    (i : ℕ) → i < length xs → before (get_or xs i 0) ≡ ltb i (prefix_length before xs)

lower_bound_from-prefix_length :
    (before : ℕ → Bool) (xs : List ℕ) (fuel first count : ℕ)
    → IsPartitioned before xs
    → first ≤ prefix_length before xs
    → prefix_length before xs ≤ first + count
    → first + count ≤ length xs
    → count ≤ fuel
    → lower_bound_from before xs fuel first count ≡ prefix_length before xs
unfolding lower_bound_from
lower_bound_from-prefix_length before xs zero first count p l u w f = omega arith
lower_bound_from-prefix_length before xs (suc fuel) first count p l u w f =
    let half = count / 2 in
    ground (
      arith,
      p (first + count / 2),
      lower_bound_from-prefix_length before xs fuel (first + count / 2 + 1) (count - count / 2 - 1)
          p,
      lower_bound_from-prefix_length before xs fuel first (count / 2) p,
    )

pub lower_bound-prefix_length :
    (before : ℕ → Bool) (xs : List ℕ)
    → IsPartitioned before xs
    → lower_bound before xs ≡ prefix_length before xs
unfolding lower_bound
lower_bound-prefix_length before xs p =
    lower_bound_from-prefix_length before xs (length xs) 0 (length xs) p (omega arith)
      (omega (arith, prefix_length_le before xs)) (omega arith) (omega arith)

All-get_or {ℓ} :
    (P : ℕ → Type ℓ) (xs : List ℕ) (i : ℕ) → All P xs → i < length xs → P (get_or xs i 0)
All-get_or P [] i h l = absurd (omega arith)
All-get_or P (x ∷ xs) zero h l = h.0
All-get_or P (x ∷ xs) (suc i) h l = All-get_or P xs i h.1 (omega arith)

module _ {ℓ} {K : Type ℓ} (o : TrieKey K) (key_of : ℕ → K) where
  abbrev pub Above : K → List ℕ → Type 0
  Above k xs = All (λ c. o.less k (key_of c) ≡ true) xs

  -- Strictly ascending keys.
  abbrev pub Sorted : List ℕ → Type 0
  Sorted [] = Unit
  Sorted (x ∷ xs) = Above (key_of x) xs × Sorted xs

  abbrev pub before_key : K → ℕ → Bool
  before_key k c = o.less (key_of c) k

  abbrev pub scan_key : K → List ℕ → Option ℕ
  scan_key k xs = scan o.eq_key.beq key_of k xs

  pub Above-trans : (a b : K) (xs : List ℕ) → o.less a b ≡ true → Above b xs → Above a xs
  Above-trans a b xs h u =
      All-map _ (λ c. o.less a (key_of c) ≡ true) xs (λ c t. o.less_trans a b (key_of c) h t) u

  Above-scan_key : (k : K) (xs : List ℕ) → Above k xs → scan_key k xs ≡ none
  unfolding scan
  Above-scan_key k [] u = refl
  Above-scan_key k (x ∷ xs) u =
      ground (arith, Above-scan_key k xs u.1, u.0, o.less_irrefl k, o.eq_key.beq_iff (key_of x) k)

  not_before :
      (x : ℕ) (k : K) (y : K)
      → before_key k x ≡ false
      → o.less (key_of x) y ≡ true
      → o.less y k ≡ false
  not_before x k y h t = ground (arith, h, t, o.less_trans (key_of x) y k)

  pub Sorted-IsPartitioned : (k : K) (xs : List ℕ) → Sorted xs → IsPartitioned (before_key k) xs
  unfolding prefix_length
  Sorted-IsPartitioned k [] s i l = absurd (omega arith)
  Sorted-IsPartitioned k (x ∷ xs) s zero l = ground arith
  Sorted-IsPartitioned k (x ∷ xs) s (suc i) l = ground (
    arith,
    Sorted-IsPartitioned k xs s.1 i,
    not_before x k (key_of (get_or xs i 0)),
    All-get_or (λ c. o.less (key_of x) (key_of c) ≡ true) xs i s.0,
  )

  -- The candidate at a position, if its key is the one sought.
  abbrev pub candidate : K → Option ℕ → Option ℕ
  candidate k none = none
  candidate k (some c) = if o.eq_key.beq (key_of c) k then some c else none

  prefix_length-scan_key :
      (k : K) (xs : List ℕ)
      → Sorted xs
      → candidate k (get_elem? xs (prefix_length (before_key k) xs)) ≡ scan_key k xs
  unfolding prefix_length scan
  prefix_length-scan_key k [] s = refl
  prefix_length-scan_key k (x ∷ xs) s = elim (Bool-cases (o.less (key_of x) k)) [
    | inl b ↦
        ground (
          arith,
          b,
          prefix_length-scan_key k xs s.1,
          o.less_irrefl k,
          o.eq_key.beq_iff (key_of x) k,
        )
    | inr b ↦ elim (Bool-cases (o.eq_key.beq (key_of x) k)) [
      | inl e ↦ rw (b, e) refl
      | inr e ↦
          rw (b, e)
            (sym (
              Above-scan_key k xs
                (Above-trans k (key_of x) xs (o.less_total (key_of x) k e b) s.0)))
    ]
  ]

  pub lower_bound-scan_key :
      (k : K) (xs : List ℕ)
      → Sorted xs
      → candidate k (get_elem? xs (lower_bound (before_key k) xs)) ≡ scan_key k xs
  lower_bound-scan_key k xs s =
      ap (λ (n : ℕ). candidate k (get_elem? xs n))
        (lower_bound-prefix_length (before_key k) xs (Sorted-IsPartitioned k xs s))
      ∙ prefix_length-scan_key k xs s
