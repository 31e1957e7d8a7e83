-- ===== src/Trie/Writes.antt =====
-- A write to a value in a trie of utils/containers/trie.hpp changes that value only.
use puc.Base.{
  ℕ, ◌<◌, ◌≡◌, refl, sym, ap, subst, ◌∙◌, ◌≢◌, inl, inr, Bool, none, some, List, [], ◌∷◌, ◌++◌,
  arith, if◌then◌else◌, Option-cases, length, All, length-set, get_or-set_self, get_or-set_ne,
  All-map,
}
use puc.Trie.{TrieKey, TrieNode, blank, key_at, find_child, find_node_from, value_at, set_value}
use puc.Trie.Search.{Sorted, scan_key}
use puc.Trie.Paths.{children_at, IsBelow, HasPaths, find_child-scan_key, find_child-path}
use puc.Trie.Growth.{get_or-set, scan_key_agree, Sorted-agree}

module _ {ℓ κ} {K : Type ℓ} {V : Type κ} (o : TrieKey K) (dk : K) (dv : V) where
  -- A write to a node's value keeps the paths and every search.
  module _ (nodes : List (TrieNode K V)) (path : ℕ → List K) (t : ℕ) (b : Bool) (v : V)
      (h : HasPaths o dk dv nodes path) (l : t < length nodes) where
    abbrev written : List (TrieNode K V)
    written = set_value o dk dv nodes t b v

    pub length-written : length written ≡ length nodes
    unfolding set_value
    length-written = length-set nodes t _

    written_key : (i : ℕ) → key_at o dk dv written i ≡ key_at o dk dv nodes i
    unfolding set_value
    written_key i = get_or-set (λ (n : TrieNode K V). n.key) nodes t i _ (blank o dk dv) refl

    written_children : (i : ℕ) → children_at o dk dv written i ≡ children_at o dk dv nodes i
    unfolding set_value
    written_children i =
        get_or-set (λ (n : TrieNode K V). n.children) nodes t i _ (blank o dk dv) refl

    inside : (i : ℕ) → All (λ c. c < length nodes) (children_at o dk dv nodes i)
    inside i = All-map (IsBelow o dk dv nodes path i) _ _ (λ c t. t.0) (h.below i)

    pub set_value-HasPaths : HasPaths o dk dv written path
    set_value-HasPaths = record {
      nonempty = omega (arith, length-written, l);
      root_path = h.root_path;
      below = λ i. subst (All (IsBelow o dk dv written path i)) (sym (written_children i)) (
          All-map (IsBelow o dk dv nodes path i) _ _
            (λ c u. (
              omega (arith, u.0, length-written),
              u.1 ∙ ap (λ (k : K). path i ++ (k ∷ [])) (sym (written_key c)),
              u.2,
            ))
            (h.below i));
      ascending = λ i. subst (Sorted o (key_at o dk dv written)) (sym (written_children i)) (
          Sorted-agree o (length nodes) (key_at o dk dv nodes) (key_at o dk dv written)
            (λ c u. sym (written_key c)) _ (inside i) (h.ascending i));
    }

    written_child :
        (i : ℕ) (k : K)
        → i < length nodes
        → find_child o dk dv written i k ≡ find_child o dk dv nodes i k
    written_child i k u =
        find_child-scan_key o dk dv written path i k set_value-HasPaths
          (omega (arith, u, length-written))
        ∙ ap (scan_key o (key_at o dk dv written) k) (written_children i)
        ∙ scan_key_agree o (length nodes) (key_at o dk dv written) (key_at o dk dv nodes)
            (λ c u. written_key c) k _ (inside i)
        ∙ sym (find_child-scan_key o dk dv nodes path i k h u)

    pub written_node :
        (keys : List K) (i : ℕ)
        → i < length nodes
        → find_node_from o dk dv written i keys ≡ find_node_from o dk dv nodes i keys
    unfolding find_node_from
    written_node [] i u = refl
    written_node (k ∷ ks) i u = elim (Option-cases (find_child o dk dv nodes i k)) [
      | inl e ↦ ground (arith, e, written_child i k u)
      | inr (c, e) ↦ ground (
        arith,
        e,
        written_child i k u,
        written_node ks c (find_child-path o dk dv nodes path i c k h u e).0,
      )
    ]

    pub written_value : value_at o dk dv written t ≡ (if b then some v else none)
    unfolding set_value value_at
    written_value =
        ap (λ (n : TrieNode K V). if n.sequence_end then some n.value else none)
          (get_or-set_self nodes t _ (blank o dk dv) l)

    pub written_other : (j : ℕ) → t ≢ j → value_at o dk dv written j ≡ value_at o dk dv nodes j
    unfolding set_value value_at
    written_other j n =
        ap (λ (n : TrieNode K V). if n.sequence_end then some n.value else none)
          (get_or-set_ne nodes t j _ (blank o dk dv) n)
