-- ===== src/Trie/Growth.antt =====
-- A new node of utils/containers/trie.hpp: what `append_child` changes, and that it keeps the trie
-- well formed.
use puc.Base.{
  ℕ, zero, suc, ◌<◌, ◌≡◌, refl, ap, ◌∙◌, ◌≢◌, true, none, some, List, [], ◌∷◌, ◌++◌, arith,
  if◌then◌else◌, length, get_or, set, All, length-append, length-set, get_or-set_self,
  get_or-set_ne, get_or-append_left, get_or-append_length,
}
use puc.Trie.{
  node, TrieKey, TrieNode, lower_bound, scan, insert_at, blank, key_at, value_at, append_child,
}
use puc.Trie.Search.{Sorted, scan_key}
use puc.Trie.Paths.{children_at}

module _ {ℓ κ} {A : Type ℓ} {B : Type κ} (f : A → B) where
  -- A part that the new last element shares with the default reads as before.
  pub get_or-snoc :
      (xs : List A) (y d : A) (i : ℕ)
      → f y ≡ f d
      → f (get_or (xs ++ (y ∷ [])) i d) ≡ f (get_or xs i d)
  get_or-snoc [] y d zero e = e
  get_or-snoc [] y d (suc i) e = refl
  get_or-snoc (x ∷ xs) y d zero e = refl
  get_or-snoc (x ∷ xs) y d (suc i) e = get_or-snoc xs y d i e

  -- A part that a write keeps reads as before.
  pub get_or-set :
      (xs : List A) (i j : ℕ) (v d : A)
      → f v ≡ f (get_or xs i d)
      → f (get_or (set xs i v) j d) ≡ f (get_or xs j d)
  get_or-set [] i j v d e = refl
  get_or-set (x ∷ xs) zero zero v d e = e
  get_or-set (x ∷ xs) zero (suc j) v d e = refl
  get_or-set (x ∷ xs) (suc i) zero v d e = refl
  get_or-set (x ∷ xs) (suc i) (suc j) v d e = get_or-set xs i j v d e

-- Keys that agree below a bound give the same scans and the same order.
module _ {ℓ} {K : Type ℓ} (o : TrieKey K) (n : ℕ) (f g : ℕ → K)
    (agree : (c : ℕ) → c < n → f c ≡ g c) where
  pub scan_key_agree :
      (k : K) (xs : List ℕ) → All (λ c. c < n) xs → scan_key o f k xs ≡ scan_key o g k xs
  unfolding scan
  scan_key_agree k [] h = refl
  scan_key_agree k (x ∷ xs) h = ground (arith, agree x h.0, scan_key_agree k xs h.1)

  pub Sorted-agree : (xs : List ℕ) → All (λ c. c < n) xs → Sorted o f xs → Sorted o g xs
  Sorted-agree [] h s = tt
  Sorted-agree (x ∷ xs) h s = (above xs h.1 s.0, Sorted-agree xs h.1 s.1)
    where
      above :
          (ys : List ℕ)
          → All (λ c. c < n) ys
          → All (λ c. o.less (f x) (f c) ≡ true) ys
          → All (λ c. o.less (g x) (g c) ≡ true) ys
      above [] h u = tt
      above (y ∷ ys) i u = (ground (arith, agree x h.0, agree y i.0, u.0), above ys i.1 u.1)

module _ {ℓ κ} {K : Type ℓ} {V : Type κ} (o : TrieKey K) (dk : K) (dv : V)
    (nodes : List (TrieNode K V)) (parent : ℕ) (key : K) where
  abbrev pub grown : List (TrieNode K V)
  grown = nodes ++ (record (blank o dk dv) { key = key } ∷ [])

  abbrev pub after : List (TrieNode K V)
  after = append_child o dk dv nodes parent key

  abbrev pub position : ℕ
  position =
      lower_bound (λ c. o.less (key_at o dk dv grown c) key) (children_at o dk dv grown parent)

  pub length-append_child : length after ≡ suc (length nodes)
  unfolding append_child
  length-append_child = length-set grown parent _ ∙ length-append nodes _ ∙ omega arith

  pub key_at-append_child : (i : ℕ) → key_at o dk dv after i ≡ key_at o dk dv grown i
  unfolding append_child
  key_at-append_child i =
      get_or-set (λ (n : TrieNode K V). n.key) grown parent i _ (blank o dk dv) refl

  pub key_of_old : (i : ℕ) → i < length nodes → key_at o dk dv after i ≡ key_at o dk dv nodes i
  key_of_old i l =
      key_at-append_child i
      ∙ ap (λ (n : TrieNode K V). n.key) (get_or-append_left nodes _ i (blank o dk dv) l)

  pub key_of_new : key_at o dk dv grown (length nodes) ≡ key
  key_of_new = ap (λ (n : TrieNode K V). n.key) (get_or-append_length nodes [] _ (blank o dk dv))

  -- No lookup at a node changes.
  pub value_at-append_child : (i : ℕ) → value_at o dk dv after i ≡ value_at o dk dv nodes i
  unfolding append_child value_at
  value_at-append_child i =
      let read = λ (n : TrieNode K V). if n.sequence_end then some n.value else none in
      get_or-set read grown parent i _ (blank o dk dv) refl
      ∙ get_or-snoc read nodes _ (blank o dk dv) i refl

  -- A part that a new node shares with the default, and that the new child of the parent keeps.
  pub kept_part {μ} :
      {B : Type μ} (f : TrieNode K V → B)
      → ((n : TrieNode K V) (k : K) (cs : List ℕ) → f (record n { key = k; children = cs }) ≡ f n)
      → (i : ℕ) → f (node o dk dv after i) ≡ f (node o dk dv nodes i)
  unfolding append_child
  kept_part f same i =
      get_or-set f grown parent i _ (blank o dk dv)
        (same (node o dk dv grown parent) (node o dk dv grown parent).key _)
      ∙ get_or-snoc f nodes _ (blank o dk dv) i (same (blank o dk dv) key [])

  pub children_grown : (i : ℕ) → children_at o dk dv grown i ≡ children_at o dk dv nodes i
  children_grown i = get_or-snoc (λ (n : TrieNode K V). n.children) nodes _ (blank o dk dv) i refl

  pub children_of_parent :
      parent < length nodes
      → children_at o dk dv after parent
        ≡ insert_at position (length nodes) (children_at o dk dv grown parent)
  unfolding append_child
  children_of_parent l =
      ap (λ (n : TrieNode K V). n.children)
        (get_or-set_self grown parent _ (blank o dk dv)
          (omega (arith, length-append nodes (record (blank o dk dv) { key = key } ∷ []), l)))

  pub children_of_other :
      (i : ℕ) → parent ≢ i → children_at o dk dv after i ≡ children_at o dk dv nodes i
  unfolding append_child
  children_of_other i n =
      ap (λ (n : TrieNode K V). n.children) (get_or-set_ne grown parent i _ (blank o dk dv) n)
      ∙ children_grown i
