-- ===== src/Trie/Paths.antt =====
-- The well-formedness of a trie of utils/containers/trie.hpp: each node is reached by one path.
use puc.Base.{
  ℕ, ◌+◌, ◌≤◌, ◌<◌, ◌≡◌, sym, ap, ◌∙◌, inl, inr, some, List, [], ◌∷◌, ◌++◌, append-nil,
  append_assoc, arith, Bool-cases, Option-cases, length, All,
}
use puc.Trie.{TrieKey, TrieNode, scan, node, key_at, binary_search, find_child, find_node_from}
use puc.Trie.Search.{Sorted, scan_key, lower_bound-scan_key}

module _ {ℓ κ} {K : Type ℓ} {V : Type κ} (o : TrieKey K) (dk : K) (dv : V) where
  abbrev pub children_at : List (TrieNode K V) → ℕ → List ℕ
  children_at nodes i = (node o dk dv nodes i).children

  -- A child is a node behind its parent, and its path is that of its parent with its own key behind.
  abbrev pub IsBelow : List (TrieNode K V) → (ℕ → List K) → ℕ → ℕ → Type ℓ
  IsBelow nodes path i c =
      (c < length nodes) × (path c ≡ path i ++ (key_at o dk dv nodes c ∷ [])) × (i < c)

  -- The nodes have the given paths, and the children are in the order of their keys.
  pub record HasPaths (nodes : List (TrieNode K V)) (path : ℕ → List K) : Type ℓ where
    pub nonempty : 0 < length nodes
    pub root_path : path 0 ≡ []
    pub below : (i : ℕ) → All (IsBelow nodes path i) (children_at nodes i)
    pub ascending : (i : ℕ) → Sorted o (key_at o dk dv nodes) (children_at nodes i)

  -- A trie is well formed when its nodes have paths.
  abbrev pub IsTrie : List (TrieNode K V) → Type ℓ
  IsTrie nodes = (path : ℕ → List K) × HasPaths nodes path

  -- In a trie whose nodes have the given paths, the search of a node's children, by a scan or by
  -- halving, finds what a scan finds.
  pub find_child-scan_key :
      (nodes : List (TrieNode K V)) (path : ℕ → List K) (i : ℕ) (k : K)
      → HasPaths nodes path
      → i < length nodes
      → find_child o dk dv nodes i k ≡ scan_key o (key_at o dk dv nodes) k (children_at nodes i)
  unfolding find_child binary_search
  find_child-scan_key nodes path i k h l = ground (
    arith,
    l,
    lower_bound-scan_key o (key_at o dk dv nodes) k (children_at nodes i) (h.ascending i),
  )

  scan_key-IsBelow :
      (nodes : List (TrieNode K V)) (path : ℕ → List K) (i c : ℕ) (k : K) (xs : List ℕ)
      → All (IsBelow nodes path i) xs
      → scan_key o (key_at o dk dv nodes) k xs ≡ some c
      → (c < length nodes) × (path c ≡ path i ++ (k ∷ [])) × (i < c)
  unfolding scan
  scan_key-IsBelow nodes path i c k [] h e = cc
  scan_key-IsBelow nodes path i c k (x ∷ xs) h e =
      elim (Bool-cases (o.eq_key.beq (key_at o dk dv nodes x) k)) [
        | inl b ↦ ground (arith, b, e, h.0, o.eq_key.beq_iff (key_at o dk dv nodes x) k)
        | inr b ↦ scan_key-IsBelow nodes path i c k xs h.1 (ground (arith, b, e))
      ]

  pub find_child-path :
      (nodes : List (TrieNode K V)) (path : ℕ → List K) (i c : ℕ) (k : K)
      → HasPaths nodes path
      → i < length nodes
      → find_child o dk dv nodes i k ≡ some c
      → (c < length nodes) × (path c ≡ path i ++ (k ∷ [])) × (i < c)
  find_child-path nodes path i c k h l e =
      scan_key-IsBelow nodes path i c k (children_at nodes i) (h.below i)
        (sym (find_child-scan_key nodes path i k h l) ∙ e)

  -- What is found lies at the path that was looked for.
  pub find_node_from-path :
      (nodes : List (TrieNode K V)) (path : ℕ → List K) (i j : ℕ) (keys : List K)
      → HasPaths nodes path
      → i < length nodes
      → find_node_from o dk dv nodes i keys ≡ some j
      → (j < length nodes) × (path j ≡ path i ++ keys) × (i + length keys ≤ j)
  unfolding find_node_from
  find_node_from-path nodes path i j [] h l e = ground (arith, e, l, append-nil (path i))
  find_node_from-path nodes path i j (k ∷ ks) h l e =
      elim (Option-cases (find_child o dk dv nodes i k)) [
        | inl n ↦ absurd (ground (arith, n, e))
        | inr (c, f) ↦
            let p = find_child-path nodes path i c k h l f in
            let q = find_node_from-path nodes path c j ks h p.0 (ground (arith, f, e)) in
            (
              q.0,
              q.1 ∙ ap (λ (t : List K). t ++ ks) p.1 ∙ append_assoc (path i) (k ∷ []) ks,
              omega (arith, p.2, q.2),
            )
      ]
