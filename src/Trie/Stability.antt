-- ===== src/Trie/Stability.antt =====
-- Indexes into a trie of utils/containers/trie.hpp stay valid: an insertion keeps the node of every
-- other sequence, with its value.
use puc.Base.{
  ℕ, ◌<◌, ◌≡◌, sym, ap, ◌∙◌, ◌≢◌, ◌⊎◌, inl, inr, Bool, true, some, List, [], ◌∷◌, ◌++◌, arith, ◌==◌,
  Bool-cases, Option-cases, length, get_or-set_self, get_or-set_ne,
}
use puc.Trie.{
  TrieKey, TrieNode, node, find_child, find_node, find_node_from, set_value, walk, insert,
}
use puc.Trie.Paths.{HasPaths, IsTrie, find_child-path, find_node_from-path}
use puc.Trie.Walk.{Grows, walk-Walks}
use puc.Trie.Writes.{written_node}

module _ {ℓ κ} {K : Type ℓ} {V : Type κ} (o : TrieKey K) (dk : K) (dv : V) where
  Grows-find :
      (nodes after : List (TrieNode K V)) (path : ℕ → List K) (keys : List K) (i j : ℕ)
      → HasPaths o dk dv nodes path
      → Grows o dk dv nodes after
      → i < length nodes
      → find_node_from o dk dv nodes i keys ≡ some j
      → find_node_from o dk dv after i keys ≡ some j
  unfolding find_node_from
  Grows-find nodes after path [] i j h g l e = e
  Grows-find nodes after path (k ∷ ks) i j h g l e =
      elim (Option-cases (find_child o dk dv nodes i k)) [
        | inl m ↦ absurd (ground (arith, m, e))
        | inr (c, m) ↦
            let p = find_child-path o dk dv nodes path i c k h l m in
            let r = Grows-find nodes after path ks c j h g p.0 (ground (arith, m, e)) in
            ground (arith, g.edges i c k l m, r)
      ]

  -- The node at an index has the same value and the same mark in both.
  pub record SameNode (a b : List (TrieNode K V)) (i : ℕ) : Type κ where
    pub same_value : (node o dk dv a i).value ≡ (node o dk dv b i).value
    pub same_end : (node o dk dv a i).sequence_end ≡ (node o dk dv b i).sequence_end

  pub path_of :
      (nodes : List (TrieNode K V)) (keys : List K) (i : ℕ) (t : IsTrie o dk dv nodes)
      → find_node o dk dv nodes keys ≡ some i
      → (i < length nodes) × (t.0 i ≡ keys)
  path_of nodes keys i (path, h) e =
      let p = find_node_from-path o dk dv nodes path 0 i keys h h.nonempty e in
      (p.0, p.1 ∙ ap (λ (q : List K). q ++ keys) h.root_path)

  pub set_value-find :
      (nodes : List (TrieNode K V)) (t : ℕ) (b : Bool) (v : V) (keys : List K)
      → IsTrie o dk dv nodes
      → t < length nodes
      → find_node o dk dv (set_value o dk dv nodes t b v) keys ≡ find_node o dk dv nodes keys
  set_value-find nodes t b v keys (path, h) l =
      written_node o dk dv nodes path t b v h l keys 0 h.nonempty

  pub set_value-SameNode :
      (nodes : List (TrieNode K V)) (t i : ℕ) (b : Bool) (v : V)
      → t ≢ i
      → SameNode (set_value o dk dv nodes t b v) nodes i
  unfolding set_value
  set_value-SameNode nodes t i b v n = record {
    same_value = ap (λ (m : TrieNode K V). m.value) (get_or-set_ne nodes t i _ _ n);
    same_end = ap (λ (m : TrieNode K V). m.sequence_end) (get_or-set_ne nodes t i _ _ n);
  }

  pub set_value_self :
      (nodes : List (TrieNode K V)) (t : ℕ) (b : Bool) (v : V)
      → t < length nodes
      → ((node o dk dv (set_value o dk dv nodes t b v) t).value ≡ v)
        × ((node o dk dv (set_value o dk dv nodes t b v) t).sequence_end ≡ b)
  unfolding set_value
  set_value_self nodes t b v l = (
    ap (λ (m : TrieNode K V). m.value) (get_or-set_self nodes t _ _ l),
    ap (λ (m : TrieNode K V). m.sequence_end) (get_or-set_self nodes t _ _ l),
  )

  -- Inserting a sequence into a well-formed trie keeps the index, the value and the mark of the node
  -- of every other sequence.
  pub insert-SameNode :
      (nodes : List (TrieNode K V)) (keys other : List K) (v : V) (i : ℕ)
      → IsTrie o dk dv nodes
      → other ≢ keys
      → find_node o dk dv nodes other ≡ some i
      → (find_node o dk dv (insert o dk dv nodes keys v).0 other ≡ some i)
        × SameNode (insert o dk dv nodes keys v).0 nodes i
  unfolding insert
  insert-SameNode nodes keys other v i t n e =
      let w = walk-Walks o dk dv keys nodes 0 t t.1.nonempty in
      let r = walk o dk dv nodes 0 keys in
      let f = Grows-find nodes r.0 t.0 other 0 i t.1 w.grows t.1.nonempty e in
      let apart : r.1 ≢ i = λ q. n (
        sym (path_of r.0 other i w.trie f).1
        ∙ ap w.trie.0 (sym q)
        ∙ (path_of r.0 keys r.1 w.trie w.reached).1) in
      let s = set_value-SameNode r.0 r.1 i true v apart in
      (
        set_value-find r.0 r.1 true v other w.trie w.terminal ∙ f,
        record {
          same_value = s.same_value ∙ w.grows.values i;
          same_end = s.same_end ∙ w.grows.ends i;
        },
      )

  -- The node of the inserted sequence.
  pub insert_self :
      (nodes : List (TrieNode K V)) (keys : List K) (v : V)
      → IsTrie o dk dv nodes
      → let r = insert o dk dv nodes keys v in
        (find_node o dk dv r.0 keys ≡ some r.1)
        × ((node o dk dv r.0 r.1).value ≡ v)
        × ((node o dk dv r.0 r.1).sequence_end ≡ true)
  unfolding insert
  insert_self nodes keys v t =
      let w = walk-Walks o dk dv keys nodes 0 t t.1.nonempty in
      let r = walk o dk dv nodes 0 keys in
      (
        set_value-find r.0 r.1 true v keys w.trie w.terminal ∙ w.reached,
        (set_value_self r.0 r.1 true v w.terminal).0,
        (set_value_self r.0 r.1 true v w.terminal).1,
      )

  -- A value after an insertion is the inserted one, or the one that stood there.
  pub insert-value :
      (nodes : List (TrieNode K V)) (keys : List K) (v : V) (j : ℕ)
      → IsTrie o dk dv nodes
      → ((node o dk dv (insert o dk dv nodes keys v).0 j).value ≡ v)
        ⊎ ((node o dk dv (insert o dk dv nodes keys v).0 j).value ≡ (node o dk dv nodes j).value)
  unfolding insert
  insert-value nodes keys v j t =
      let w = walk-Walks o dk dv keys nodes 0 t t.1.nonempty in
      let r = walk o dk dv nodes 0 keys in
      elim (Bool-cases (r.1 == j)) [
        | inl e ↦ inl (
            ap (λ (i : ℕ). (node o dk dv (set_value o dk dv r.0 r.1 true v) i).value)
              (sym (ground (arith, e)))
            ∙ (set_value_self r.0 r.1 true v w.terminal).0)
        | inr e ↦ inr (
            (set_value-SameNode r.0 r.1 j true v (ground (arith, e))).same_value ∙ w.grows.values j)
      ]
