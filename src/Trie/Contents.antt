-- ===== src/Trie/Contents.antt =====
-- A trie of utils/containers/trie.hpp is a map from sequences to values with stable indexes.
use puc.Base.{
  ℕ, zero, suc, ◌<◌, ◌≡◌, refl, sym, ap, subst, ◌∙◌, ◌≢◌, inl, inr, Bool, true, false, Option, none,
  some, List, [], ◌++◌, arith, if◌then◌else◌, Bool-cases, Option-cases, length, All,
}
use puc.Trie.{
  TrieKey, TrieNode, key_at, find_node, value_at, find_from, find, contains_sequence, node,
  set_value, walk, insert, erase, empty,
}
use puc.Trie.Search.{Sorted}
use puc.Trie.Paths.{children_at, IsBelow, IsTrie, find_node_from-path}
use puc.Trie.Walk.{walk-Walks}
use puc.Trie.Writes.{set_value-HasPaths, written_node, written_value, written_other, length-written}

module _ {ℓ κ} {K : Type ℓ} {V : Type κ} (o : TrieKey K) (dk : K) (dv : V) where
  no_children : (i : ℕ) → children_at o dk dv (empty o dk dv) i ≡ []
  no_children zero = refl
  no_children (suc i) = refl

  -- The trie that holds nothing is well formed.
  pub empty-IsTrie : IsTrie o dk dv (empty o dk dv)
  empty-IsTrie = (
    λ i. [],
    record {
      nonempty = omega arith;
      root_path = refl;
      below =
          λ i. subst (All (IsBelow o dk dv (empty o dk dv) (λ i. []) i)) (sym (no_children i)) tt;
      ascending = λ i. subst (Sorted o (key_at o dk dv (empty o dk dv))) (sym (no_children i)) tt;
    },
  )

  abbrev read_node : List (TrieNode K V) → Option ℕ → Option V
  read_node nodes none = none
  read_node nodes (some i) = value_at o dk dv nodes i

  find-read_node :
      (nodes : List (TrieNode K V)) (keys : List K)
      → find o dk dv nodes keys ≡ read_node nodes (find_node o dk dv nodes keys)
  unfolding find_from
  find-read_node nodes keys = go (find_node o dk dv nodes keys)
    where
      go :
          (m : Option ℕ)
          → elim m as (λ x. Option V) [ none ↦ none | some i ↦ value_at o dk dv nodes i ]
            ≡ read_node nodes m
      go none = refl
      go (some i) = refl

  find_of_node :
      (nodes : List (TrieNode K V)) (keys : List K) (i : ℕ)
      → find_node o dk dv nodes keys ≡ some i
      → find o dk dv nodes keys ≡ value_at o dk dv nodes i
  find_of_node nodes keys i e = find-read_node nodes keys ∙ ap (read_node nodes) e

  find_of_none :
      (nodes : List (TrieNode K V)) (keys : List K)
      → find_node o dk dv nodes keys ≡ none
      → find o dk dv nodes keys ≡ none
  find_of_none nodes keys e = find-read_node nodes keys ∙ ap (read_node nodes) e

  contains_of_none :
      (nodes : List (TrieNode K V)) (keys : List K)
      → find_node o dk dv nodes keys ≡ none
      → contains_sequence o dk dv nodes keys ≡ false
  unfolding contains_sequence
  contains_of_none nodes keys e = rw (contains_sequence, e) refl

  contains_of_node :
      (nodes : List (TrieNode K V)) (keys : List K) (i : ℕ)
      → find_node o dk dv nodes keys ≡ some i
      → contains_sequence o dk dv nodes keys ≡ (node o dk dv nodes i).sequence_end
  unfolding contains_sequence
  contains_of_node nodes keys i e = rw (contains_sequence, e) refl

  unset :
      (nodes : List (TrieNode K V)) (i : ℕ)
      → (node o dk dv nodes i).sequence_end ≡ false
      → value_at o dk dv nodes i ≡ none
  unfolding value_at
  unset nodes i b = rw (value_at, b) refl

  -- A write at the node of a sequence changes what that sequence finds, and no other.
  module _ (nodes : List (TrieNode K V)) (keys : List K) (t : ℕ) (b : Bool) (v : V)
      (trie : IsTrie o dk dv nodes) (e : find_node o dk dv nodes keys ≡ some t) where
    terminal : (t < length nodes) × (trie.0 t ≡ keys)
    terminal =
        let p = find_node_from-path o dk dv nodes trie.0 0 t keys trie.1 trie.1.nonempty e in
        (p.0, p.1 ∙ ap (λ (q : List K). q ++ keys) trie.1.root_path)

    same_node :
        (other : List K)
        → find_node o dk dv (set_value o dk dv nodes t b v) other ≡ find_node o dk dv nodes other
    same_node other =
        written_node o dk dv nodes trie.0 t b v trie.1 terminal.0 other 0 trie.1.nonempty

    write_self : find o dk dv (set_value o dk dv nodes t b v) keys ≡ (if b then some v else none)
    write_self =
        find_of_node (set_value o dk dv nodes t b v) keys t (same_node keys ∙ e)
        ∙ written_value o dk dv nodes trie.0 t b v trie.1 terminal.0

    write_other :
        (other : List K)
        → other ≢ keys
        → find o dk dv (set_value o dk dv nodes t b v) other ≡ find o dk dv nodes other
    write_other other n = elim (Option-cases (find_node o dk dv nodes other)) [
      | inl f ↦
          find_of_none (set_value o dk dv nodes t b v) other (same_node other ∙ f)
          ∙ sym (find_of_none nodes other f)
      | inr (j, f) ↦
          let p = find_node_from-path o dk dv nodes trie.0 0 j other trie.1 trie.1.nonempty f in
          find_of_node (set_value o dk dv nodes t b v) other j (same_node other ∙ f)
          ∙ written_other o dk dv nodes trie.0 t b v trie.1 terminal.0 j (λ q. n (
              sym (p.1 ∙ ap (λ (q : List K). q ++ other) trie.1.root_path)
              ∙ ap trie.0 (sym q)
              ∙ terminal.1))
          ∙ sym (find_of_node nodes other j f)
    ]

    pub write-IsTrie : IsTrie o dk dv (set_value o dk dv nodes t b v)
    write-IsTrie = (trie.0, set_value-HasPaths o dk dv nodes trie.0 t b v trie.1 terminal.0)

  -- Inserting into a well-formed trie gives a well-formed trie: every node has one path, every child
  -- is a node, and the children of each node ascend by key.
  pub insert-IsTrie :
      (nodes : List (TrieNode K V)) (keys : List K) (v : V)
      → IsTrie o dk dv nodes
      → IsTrie o dk dv (insert o dk dv nodes keys v).0
  unfolding insert
  insert-IsTrie nodes keys v trie =
      let w = walk-Walks o dk dv keys nodes 0 trie trie.1.nonempty in
      let r = walk o dk dv nodes 0 keys in write-IsTrie r.0 keys r.1 true v w.trie w.reached

  -- After an insertion into a well-formed trie, the sequence finds the value.
  pub find-insert_self :
      (nodes : List (TrieNode K V)) (keys : List K) (v : V)
      → IsTrie o dk dv nodes
      → find o dk dv (insert o dk dv nodes keys v).0 keys ≡ some v
  unfolding insert
  find-insert_self nodes keys v trie =
      let w = walk-Walks o dk dv keys nodes 0 trie trie.1.nonempty in
      let r = walk o dk dv nodes 0 keys in write_self r.0 keys r.1 true v w.trie w.reached

  -- After an insertion into a well-formed trie, every other sequence finds what it found before.
  pub find-insert_other :
      (nodes : List (TrieNode K V)) (keys other : List K) (v : V)
      → IsTrie o dk dv nodes
      → other ≢ keys
      → find o dk dv (insert o dk dv nodes keys v).0 other ≡ find o dk dv nodes other
  unfolding insert
  find-insert_other nodes keys other v trie n =
      let w = walk-Walks o dk dv keys nodes 0 trie trie.1.nonempty in
      let r = walk o dk dv nodes 0 keys in
      write_other r.0 keys r.1 true v w.trie w.reached other n
      ∙ w.grows.lookups other 0 trie.1.nonempty

  -- The outcome of an erasure in a well-formed trie: it stays well formed, the sequence finds
  -- nothing, every other sequence finds what it found before, and the answer says whether the
  -- sequence was stored.
  pub record IsErased (nodes : List (TrieNode K V)) (keys : List K) (r : Bool × List (TrieNode K V))
      : Type (ℓ ⊔ κ) where
    pub trie : IsTrie o dk dv r.1
    pub gone : find o dk dv r.1 keys ≡ none
    pub kept : (other : List K) → other ≢ keys → find o dk dv r.1 other ≡ find o dk dv nodes other
    pub answer : r.0 ≡ contains_sequence o dk dv nodes keys
    pub same_size : length r.1 ≡ length nodes

  -- Erasing a sequence from a well-formed trie keeps it well formed and its nodes in number; the
  -- sequence then finds nothing, every other sequence finds what it found before, and the answer says
  -- whether the sequence was stored.
  pub erase-IsErased :
      (nodes : List (TrieNode K V)) (keys : List K)
      → IsTrie o dk dv nodes
      → IsErased nodes keys (erase o dk dv nodes keys)
  unfolding erase
  erase-IsErased nodes keys trie = elim (Option-cases (find_node o dk dv nodes keys)) [
    | inl e ↦
        rw (erase, e)
          (record {
            trie = trie;
            gone = find_of_none nodes keys e;
            kept = λ other n. refl;
            answer = sym (contains_of_none nodes keys e);
            same_size = refl;
          })
    | inr (t, e) ↦ elim (Bool-cases (node o dk dv nodes t).sequence_end) [
      | inl b ↦
          rw (erase, e, b)
            (record {
              trie = write-IsTrie nodes keys t false dv trie e;
              gone = write_self nodes keys t false dv trie e;
              kept = write_other nodes keys t false dv trie e;
              answer = sym (contains_of_node nodes keys t e ∙ b);
              same_size =
                  length-written o dk dv nodes trie.0 t false dv trie.1
                    (terminal nodes keys t false dv trie e).0;
            })
      | inr b ↦
          rw (erase, e, b)
            (record {
              trie = trie;
              gone = find_of_node nodes keys t e ∙ unset nodes t b;
              kept = λ other n. refl;
              answer = sym (contains_of_node nodes keys t e ∙ b);
              same_size = refl;
            })
    ]
  ]
