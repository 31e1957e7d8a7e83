-- ===== src/Trie/Walk.antt =====
-- The loop of `insert` of utils/containers/trie.hpp makes a path and changes no lookup.
use puc.Base.{
  ℕ, ◌≤◌, ◌<◌, ◌≡◌, refl, ◌∙◌, inl, inr, some, List, [], ◌∷◌, arith, Option-cases, length,
}
use puc.Trie.{node, TrieKey, TrieNode, find_child, find_node_from, find_from, step, walk}
use puc.Trie.Paths.{IsTrie, find_child-path}
use puc.Trie.Growth.{length-append_child, kept_part}
use puc.Trie.Extension.{grown_path, append_child-HasPaths, find_child_of_parent}
use puc.Trie.Lookup.{kept_child, kept_lookup}

module _ {ℓ κ} {K : Type ℓ} {V : Type κ} (o : TrieKey K) (dk : K) (dv : V) where
  -- The indexes, the edges and the lookups of the old nodes are those of the new ones.
  pub record Grows (nodes after : List (TrieNode K V)) : Type (ℓ ⊔ κ) where
    pub larger : length nodes ≤ length after
    pub edges :
        (i c : ℕ) (k : K)
        → i < length nodes
        → find_child o dk dv nodes i k ≡ some c
        → find_child o dk dv after i k ≡ some c
    pub lookups :
        (keys : List K) (i : ℕ)
        → i < length nodes
        → find_from o dk dv after i keys ≡ find_from o dk dv nodes i keys
    pub values : (i : ℕ) → (node o dk dv after i).value ≡ (node o dk dv nodes i).value
    pub ends : (i : ℕ) → (node o dk dv after i).sequence_end ≡ (node o dk dv nodes i).sequence_end

  Grows-refl : (nodes : List (TrieNode K V)) → Grows nodes nodes
  Grows-refl nodes = record {
    larger = omega arith;
    edges = λ i c k l e. e;
    lookups = λ keys i l. refl;
    values = λ i. refl;
    ends = λ i. refl;
  }

  Grows-trans : (a b c : List (TrieNode K V)) → Grows a b → Grows b c → Grows a c
  Grows-trans a b c g h = record {
    larger = omega (arith, g.larger, h.larger);
    edges = λ i j k l e. h.edges i j k (omega (arith, l, g.larger)) (g.edges i j k l e);
    lookups = λ keys i l. h.lookups keys i (omega (arith, l, g.larger)) ∙ g.lookups keys i l;
    values = λ i. h.values i ∙ g.values i;
    ends = λ i. h.ends i ∙ g.ends i;
  }

  pub record Steps (nodes : List (TrieNode K V)) (current : ℕ) (key : K)
      (r : List (TrieNode K V) × ℕ) : Type (ℓ ⊔ κ) where
    pub trie : IsTrie o dk dv r.0
    pub grows : Grows nodes r.0
    pub child : r.1 < length r.0
    pub edge : find_child o dk dv r.0 current key ≡ some r.1

  step-Steps :
      (nodes : List (TrieNode K V)) (current : ℕ) (key : K)
      → IsTrie o dk dv nodes
      → current < length nodes
      → Steps nodes current key (step o dk dv nodes current key)
  unfolding step
  step-Steps nodes current key (path, h) l =
      elim (Option-cases (find_child o dk dv nodes current key)) [
        | inr (c, e) ↦
            rw (step, e)
              (record {
                trie = (path, h);
                grows = Grows-refl nodes;
                child = (find_child-path o dk dv nodes path current c key h l e).0;
                edge = e;
              })
        | inl m ↦
            rw (step, m)
              (record {
                trie = (
                  grown_path o dk dv nodes path current key h l m,
                  append_child-HasPaths o dk dv nodes path current key h l m,
                );
                grows = record {
                  larger = omega (arith, length-append_child o dk dv nodes current key);
                  edges = kept_child o dk dv nodes path current key h l m;
                  lookups = kept_lookup o dk dv nodes path current key h l m;
                  values =
                      kept_part o dk dv nodes current key (λ (n : TrieNode K V). n.value)
                        (λ n k cs. refl);
                  ends =
                      kept_part o dk dv nodes current key (λ (n : TrieNode K V). n.sequence_end)
                        (λ n k cs. refl);
                };
                child = omega (arith, length-append_child o dk dv nodes current key);
                edge = ground (
                  arith,
                  find_child_of_parent o dk dv nodes path current key h l m key,
                  o.eq_key.beq_iff key key,
                );
              })
      ]

  kept_walk :
      (nodes after : List (TrieNode K V)) (i c j : ℕ) (k : K) (ks : List K)
      → i < length nodes
      → Grows nodes after
      → find_child o dk dv nodes i k ≡ some c
      → find_node_from o dk dv after c ks ≡ some j
      → find_node_from o dk dv after i (k ∷ ks) ≡ some j
  unfolding find_node_from
  kept_walk nodes after i c j k ks l g e f = ground (arith, g.edges i c k l e, f)

  pub record Walks (nodes : List (TrieNode K V)) (current : ℕ) (keys : List K)
      (r : List (TrieNode K V) × ℕ) : Type (ℓ ⊔ κ) where
    pub trie : IsTrie o dk dv r.0
    pub grows : Grows nodes r.0
    pub terminal : r.1 < length r.0
    pub reached : find_node_from o dk dv r.0 current keys ≡ some r.1

  pub walk-Walks :
      (keys : List K) (nodes : List (TrieNode K V)) (current : ℕ)
      → IsTrie o dk dv nodes
      → current < length nodes
      → Walks nodes current keys (walk o dk dv nodes current keys)
  unfolding walk find_node_from
  walk-Walks [] nodes current t l = record {
    trie = t;
    grows = Grows-refl nodes;
    terminal = l;
    reached = refl;
  }
  walk-Walks (k ∷ ks) nodes current t l =
      let r = step o dk dv nodes current k in
      let s = step-Steps nodes current k t l in
      let w = walk-Walks ks r.0 r.1 s.trie s.child in
      record {
        trie = w.trie;
        grows = Grows-trans nodes r.0 (walk o dk dv r.0 r.1 ks).0 s.grows w.grows;
        terminal = w.terminal;
        reached =
            kept_walk r.0 (walk o dk dv r.0 r.1 ks).0 current r.1 (walk o dk dv r.0 r.1 ks).1 k ks
              (omega (arith, l, s.grows.larger)) w.grows s.edge w.reached;
      }
