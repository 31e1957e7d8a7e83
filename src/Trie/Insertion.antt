-- ===== src/Trie/Insertion.antt =====
-- The insertion of a child at its place in utils/containers/trie.hpp: the child list stays sorted,
-- and a scan finds the new child and what it found before.
use puc.Base.{
  ℕ, zero, suc, ◌≡◌, refl, sym, ap, subst, ◌∙◌, inl, inr, true, false, none, some, List, [], ◌∷◌,
  arith, if◌then◌else◌, Bool-cases, All,
}
use puc.Trie.{TrieKey, lower_bound, scan, insert_at}
use puc.Trie.Search.{
  prefix_length, lower_bound-prefix_length, Sorted, before_key, scan_key, Above-trans,
  Sorted-IsPartitioned,
}

pub All-insert_at {ℓ} :
    (P : ℕ → Type ℓ) (n c : ℕ) (xs : List ℕ) → P c → All P xs → All P (insert_at n c xs)
All-insert_at P zero c xs p h = (p, h)
All-insert_at P (suc n) c [] p h = (p, tt)
All-insert_at P (suc n) c (x ∷ xs) p h = (h.0, All-insert_at P n c xs p h.1)

module _ {ℓ} {K : Type ℓ} (o : TrieKey K) (key_of : ℕ → K) where
  scan_prefix :
      (c : ℕ) (k : K) (xs : List ℕ)
      → scan_key o key_of (key_of c) xs ≡ none
      → scan_key o key_of k (insert_at (prefix_length (before_key o key_of (key_of c)) xs) c xs)
        ≡ (if o.eq_key.beq (key_of c) k then some c else scan_key o key_of k xs)
  unfolding prefix_length scan
  scan_prefix c k [] h = refl
  scan_prefix c k (x ∷ xs) h = ground (
    arith,
    h,
    scan_prefix c k xs,
    o.eq_key.beq_iff (key_of c) k,
    o.eq_key.beq_iff (key_of x) k,
    o.eq_key.beq_iff (key_of x) (key_of c),
  )

  missing_key :
      (c x : ℕ) (xs : List ℕ)
      → scan_key o key_of (key_of c) (x ∷ xs) ≡ none
      → (o.eq_key.beq (key_of x) (key_of c) ≡ false) × (scan_key o key_of (key_of c) xs ≡ none)
  unfolding scan
  missing_key c x xs h = ground (arith, h)

  Sorted-prefix :
      (c : ℕ) (xs : List ℕ)
      → scan_key o key_of (key_of c) xs ≡ none
      → Sorted o key_of xs
      → Sorted o key_of (insert_at (prefix_length (before_key o key_of (key_of c)) xs) c xs)
  unfolding prefix_length scan
  Sorted-prefix c [] h s = (tt, tt)
  Sorted-prefix c (x ∷ xs) h s =
      let m = missing_key c x xs h in
      elim (Bool-cases (o.less (key_of x) (key_of c))) [
        | inl b ↦ rw b (
          All-insert_at (λ (i : ℕ). o.less (key_of x) (key_of i) ≡ true)
              (prefix_length (before_key o key_of (key_of c)) xs) c xs b s.0,
          Sorted-prefix c xs m.1 s.1,
        )
        | inr b ↦
            let t = o.less_total (key_of x) (key_of c) m.0 b in
            rw b ((t, Above-trans o key_of (key_of c) (key_of x) xs t s.0), s)
      ]

  -- A missing key's child goes where halving points.
  pub scan_key-insert_at :
      (c : ℕ) (key k : K) (xs : List ℕ)
      → key_of c ≡ key
      → Sorted o key_of xs
      → scan_key o key_of key xs ≡ none
      → scan_key o key_of k (insert_at (lower_bound (before_key o key_of key) xs) c xs)
        ≡ (if o.eq_key.beq key k then some c else scan_key o key_of k xs)
  scan_key-insert_at c key k xs e s h =
      ap (λ (n : ℕ). scan_key o key_of k (insert_at n c xs))
        (lower_bound-prefix_length _ xs (Sorted-IsPartitioned o key_of key xs s))
      ∙ subst
          (λ (a : K).
            scan_key o key_of a xs ≡ none
            → scan_key o key_of k (insert_at (prefix_length (before_key o key_of a) xs) c xs)
              ≡ (if o.eq_key.beq a k then some c else scan_key o key_of k xs))
          e (scan_prefix c k xs) h

  pub Sorted-insert_at :
      (c : ℕ) (key : K) (xs : List ℕ)
      → key_of c ≡ key
      → Sorted o key_of xs
      → scan_key o key_of key xs ≡ none
      → Sorted o key_of (insert_at (lower_bound (before_key o key_of key) xs) c xs)
  Sorted-insert_at c key xs e s h =
      subst (λ (n : ℕ). Sorted o key_of (insert_at n c xs))
        (sym (lower_bound-prefix_length _ xs (Sorted-IsPartitioned o key_of key xs s)))
        (subst
          (λ (a : K).
            scan_key o key_of a xs ≡ none
            → Sorted o key_of (insert_at (prefix_length (before_key o key_of a) xs) c xs))
          e (λ t. Sorted-prefix c xs t s) h)
