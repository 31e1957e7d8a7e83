-- ===== src/Trie/Lookup.antt =====
-- Lookups in a trie of utils/containers/trie.hpp after a node is added or a value is written.
use puc.Base.{
  ℕ, ◌<◌, ◌≡◌, refl, sym, ap, ◌∙◌, ◌⊎◌, inl, inr, Option, none, some, List, [], ◌∷◌, arith, ◌==◌,
  if◌then◌else◌, Bool-cases, Option-cases, length,
}
use puc.Trie.{
  TrieKey, TrieNode, scan, blank, key_at, find_child, find_node_from, value_at, find_from,
}
use puc.Trie.Search.{scan_key}
use puc.Trie.Paths.{HasPaths, find_child-scan_key, find_child-path}
use puc.Trie.Growth.{after, value_at-append_child}
use puc.Trie.Extension.{find_child_of_parent, find_child_of_other, get_or_past}

module _ {ℓ κ} {K : Type ℓ} {V : Type κ} (o : TrieKey K) (dk : K) (dv : V) where
  abbrev descend : List (TrieNode K V) → Option ℕ → List K → Option V
  descend nodes none keys = none
  descend nodes (some c) keys = find_from o dk dv nodes c keys

  find_from_cons :
      (nodes : List (TrieNode K V)) (i : ℕ) (k : K) (ks : List K)
      → find_from o dk dv nodes i (k ∷ ks) ≡ descend nodes (find_child o dk dv nodes i k) ks
  unfolding find_from find_node_from
  find_from_cons nodes i k ks = go (find_child o dk dv nodes i k)
    where
      go :
          (m : Option ℕ)
          → elim (elim m as (λ x. Option ℕ) [
            | none ↦ none
            | some c ↦ find_node_from o dk dv nodes c ks
          ])
              as (λ x. Option V) [ none ↦ none | some j ↦ value_at o dk dv nodes j ]
            ≡ descend nodes m ks
      go none = refl
      go (some c) = refl

  find_from_nil :
      (nodes : List (TrieNode K V)) (i : ℕ)
      → find_from o dk dv nodes i [] ≡ value_at o dk dv nodes i
  unfolding find_from find_node_from
  find_from_nil nodes i = refl

  module _ (nodes : List (TrieNode K V)) (path : ℕ → List K) (parent : ℕ) (key : K)
      (h : HasPaths o dk dv nodes path) (l : parent < length nodes)
      (miss : find_child o dk dv nodes parent key ≡ none) where
    abbrev added : List (TrieNode K V)
    added = after o dk dv nodes parent key

    leaf_child : (k : K) → find_child o dk dv added (length nodes) k ≡ none
    unfolding scan
    leaf_child k =
        find_child_of_other o dk dv nodes path parent key h l miss (length nodes) k
          (λ e. omega (arith, e, l)) (omega arith)
        ∙ ap (scan_key o (key_at o dk dv nodes) k) (
            ap (λ (n : TrieNode K V). n.children)
              (get_or_past nodes (length nodes) (blank o dk dv) (omega arith)))

    leaf_value : value_at o dk dv added (length nodes) ≡ none
    unfolding value_at
    leaf_value =
        value_at-append_child o dk dv nodes parent key (length nodes)
        ∙ ap (λ (n : TrieNode K V). if n.sequence_end then some n.value else none)
            (get_or_past nodes (length nodes) (blank o dk dv) (omega arith))

    leaf_lookup : (keys : List K) → find_from o dk dv added (length nodes) keys ≡ none
    leaf_lookup [] = find_from_nil added (length nodes) ∙ leaf_value
    leaf_lookup (k ∷ ks) =
        find_from_cons added (length nodes) k ks
        ∙ ap (λ (m : Option ℕ). descend added m ks) (leaf_child k)

    missing_child :
        (i : ℕ) (k : K)
        → i < length nodes
        → find_child o dk dv nodes i k ≡ none
        → (find_child o dk dv added i k ≡ none)
          ⊎ (find_child o dk dv added i k ≡ some (length nodes))
    missing_child i k b e = elim (Bool-cases (parent == i)) [
      | inl q ↦ ground (arith, q, e, find_child_of_parent o dk dv nodes path parent key h l miss k)
      | inr q ↦ inl (
          find_child_of_other o dk dv nodes path parent key h l miss i k (λ t. ground (arith, q, t))
            (omega (arith, b))
          ∙ sym (find_child-scan_key o dk dv nodes path i k h b)
          ∙ e)
    ]

    pub kept_child :
        (i c : ℕ) (k : K)
        → i < length nodes
        → find_child o dk dv nodes i k ≡ some c
        → find_child o dk dv added i k ≡ some c
    kept_child i c k b e = elim (Bool-cases (parent == i)) [
      | inl q ↦ ground (
        arith,
        q,
        e,
        miss,
        find_child_of_parent o dk dv nodes path parent key h l miss k,
        o.eq_key.beq_iff key k,
      )
      | inr q ↦
          find_child_of_other o dk dv nodes path parent key h l miss i k (λ t. ground (arith, q, t))
            (omega (arith, b))
          ∙ sym (find_child-scan_key o dk dv nodes path i k h b)
          ∙ e
    ]

    kept_descend :
        (ks : List K) (i : ℕ) (k : K)
        → i < length nodes
        → ((c : ℕ) → c < length nodes → find_from o dk dv added c ks ≡ find_from o dk dv nodes c ks)
        → (find_child o dk dv nodes i k ≡ none)
          ⊎ ((c : ℕ) × (find_child o dk dv nodes i k ≡ some c))
        → descend added (find_child o dk dv added i k) ks
          ≡ descend nodes (find_child o dk dv nodes i k) ks
    kept_descend ks i k b kept (inl e) = elim (missing_child i k b e) [
      | inl m ↦ rw (m, e) refl
      | inr m ↦ rw (m, e) (leaf_lookup ks)
    ]
    kept_descend ks i k b kept (inr (c, e)) =
        rw (kept_child i c k b e, e) (kept c (find_child-path o dk dv nodes path i c k h b e).0)

    pub kept_lookup :
        (keys : List K) (i : ℕ)
        → i < length nodes
        → find_from o dk dv added i keys ≡ find_from o dk dv nodes i keys
    kept_lookup [] i b =
        find_from_nil added i
        ∙ value_at-append_child o dk dv nodes parent key i
        ∙ sym (find_from_nil nodes i)
    kept_lookup (k ∷ ks) i b =
        find_from_cons added i k ks
        ∙ kept_descend ks i k b (kept_lookup ks) (Option-cases (find_child o dk dv nodes i k))
        ∙ sym (find_from_cons nodes i k ks)
