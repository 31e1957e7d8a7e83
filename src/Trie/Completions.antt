-- ===== src/Trie/Completions.antt =====
-- `completions` of utils/containers/trie.hpp: the sequences below a prefix, in the order of branches.
use puc.Base.{
  ℕ, zero, suc, ◌+◌, ◌≤◌, ◌<◌, ◌≡◌, refl, sym, ap, subst, ◌∙◌, inl, inr, true, none, some, List, [],
  ◌∷◌, ◌++◌, map, append-nil, append_assoc, arith, if◌then◌else◌, Bool-cases, Option-cases, length,
  concat,
}
use mathlib.Core.Option.{some-injective}
use mathlib.Core.List.Memᴰ
use mathlib.Core.List.{Memᴰ}
use puc.Trie.{TrieKey, TrieNode, scan, node, key_at, find_child, find_node, find_node_from}
use puc.Trie.Search.{scan_key}
use puc.Trie.Paths.{children_at, IsTrie, find_child-scan_key, find_child-path}

module _ {ℓ κ} {K : Type ℓ} {V : Type κ} (o : TrieKey K) (dk : K) (dv : V) where
  abbrev own_sequence : List (TrieNode K V) → ℕ → List K → List (List K)
  own_sequence nodes i current = if (node o dk dv nodes i).sequence_end then current ∷ [] else []

  -- `collect_completions`: the terminal nodes below a node. The first argument bounds the depth.
  unfoldable pub collect : ℕ → List (TrieNode K V) → ℕ → List K → List (List K)
  collect zero nodes i current = []
  collect (suc fuel) nodes i current =
      own_sequence nodes i current
      ++ concat (
          map (λ (c : ℕ). collect fuel nodes c (current ++ (key_at o dk dv nodes c ∷ [])))
            (children_at o dk dv nodes i))

  unfoldable pub completions : List (TrieNode K V) → List K → List (List K)
  completions nodes prefix = elim (find_node o dk dv nodes prefix) [
    | none ↦ []
    | some i ↦ collect (length nodes) nodes i prefix
  ]

  scan-concat :
      (nodes : List (TrieNode K V)) (k : K) (c : ℕ) (f : ℕ → List (List K)) (cs : List ℕ)
      (x : List K)
      → scan_key o (key_at o dk dv nodes) k cs ≡ some c
      → (key_at o dk dv nodes c ≡ k → Memᴰ x (f c))
      → Memᴰ x (concat (map f cs))
  unfolding scan
  scan-concat nodes k c f [] x e m = absurd (ground (arith, e))
  scan-concat nodes k c f (d ∷ ds) x e m =
      elim (Bool-cases (o.eq_key.beq (key_at o dk dv nodes d) k)) [
        | inl b ↦ Memᴰ.append_left (concat (map f ds)) (
            subst (λ (i : ℕ). Memᴰ x (f i)) (sym (same b))
              (m (ap (key_at o dk dv nodes) (sym (same b)) ∙ (o.eq_key.beq_iff _ k).0 b)))
        | inr b ↦ Memᴰ.append_right (f d) (scan-concat nodes k c f ds x (ground (arith, b, e)) m)
      ]
    where
      same : o.eq_key.beq (key_at o dk dv nodes d) k ≡ true → d ≡ c
      same b = some-injective d c (ground (arith, b, e))

  own :
      (nodes : List (TrieNode K V)) (i j : ℕ) (current : List K)
      → some i ≡ some j
      → (node o dk dv nodes j).sequence_end ≡ true
      → own_sequence nodes i current ≡ current ∷ []
  own nodes i j current e m =
      let same : (node o dk dv nodes i).sequence_end ≡ true =
        ap (λ (t : ℕ). (node o dk dv nodes t).sequence_end) (some-injective i j e) ∙ m in
      rw same refl

  moved :
      (current ks : List K) (k l : K)
      → l ≡ k
      → (s : List K → List (List K)) → Memᴰ ((current ++ (k ∷ [])) ++ ks) (s (current ++ (k ∷ [])))
      → Memᴰ (current ++ (k ∷ ks)) (s (current ++ (l ∷ [])))
  moved current ks k l e s m =
      subst (λ (x : List K). Memᴰ x (s (current ++ (l ∷ [])))) (append_assoc current (k ∷ []) ks)
        (subst (λ (h : K). Memᴰ ((current ++ (k ∷ [])) ++ ks) (s (current ++ (h ∷ [])))) (sym e) m)

  collect-Mem :
      (fuel : ℕ) (nodes : List (TrieNode K V)) (i j : ℕ) (keys current : List K)
      (trie : IsTrie o dk dv nodes)
      → i < length nodes
      → length nodes ≤ i + fuel
      → find_node_from o dk dv nodes i keys ≡ some j
      → (node o dk dv nodes j).sequence_end ≡ true
      → Memᴰ (current ++ keys) (collect fuel nodes i current)
  unfolding find_node_from collect
  collect-Mem zero nodes i j keys current trie l b e m = absurd (omega (arith, l, b))
  collect-Mem (suc fuel) nodes i j [] current trie l b e m = Memᴰ.append_left _ (
      subst (λ (s : List (List K)). Memᴰ (current ++ []) s) (sym (own nodes i j current e m))
        (Memᴰ.head (append-nil current)))
  collect-Mem (suc fuel) nodes i j (k ∷ ks) current trie l b e m =
      elim (Option-cases (find_child o dk dv nodes i k)) [
        | inl n ↦ absurd (ground (arith, n, e))
        | inr (c, f) ↦
            let p = find_child-path o dk dv nodes trie.0 i c k trie.1 l f in
            let inner =
              collect-Mem fuel nodes c j ks (current ++ (k ∷ [])) trie p.0 (omega (arith, b, p.2))
                (ground (arith, f, e)) m in
            Memᴰ.append_right (own_sequence nodes i current) (
              scan-concat nodes k c _ (children_at o dk dv nodes i) _
                (sym (find_child-scan_key o dk dv nodes trie.0 i k trie.1 l) ∙ f)
                (λ q.
                  moved current ks k (key_at o dk dv nodes c) q
                    (λ (x : List K). collect fuel nodes c x) inner))
      ]

  -- In a well-formed trie the completions of the empty prefix have every sequence.
  pub completions-Mem :
      (nodes : List (TrieNode K V)) (i : ℕ) (keys : List K)
      → IsTrie o dk dv nodes
      → find_node o dk dv nodes keys ≡ some i
      → (node o dk dv nodes i).sequence_end ≡ true
      → Memᴰ keys (completions nodes [])
  unfolding completions find_node_from
  completions-Mem nodes i keys trie e m =
      collect-Mem (length nodes) nodes 0 i keys [] trie trie.1.nonempty (omega arith) e m
