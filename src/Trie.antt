-- ===== src/Trie.antt =====
-- utils/containers/trie.hpp: a trie whose nodes stand in one vector and name their children by
-- index. `kInvalidNode` is none. The default key and value that C++ constructs are parameters.
pub mod Search
pub mod Paths
pub mod Insertion
pub mod Growth
pub mod Extension
pub mod Lookup
pub mod Walk
pub mod Writes
pub mod Contents
pub mod Stability
pub mod Completions
mod Tests
use puc.Base.{
  ℕ, zero, suc, ◌+◌, ◌-◌, ◌*◌, ◌/◌, ◌%◌, ◌^◌, ◌≤◌, ◌<◌, ◌≡◌, refl, sym, ap, ap₂, subst, ◌∙◌, ◌≢◌,
  ◌↔◌, ◌⊎◌, inl, inr, Bool, true, false, not, ◌&&◌, ◌||◌, Option, none, some, List, [], ◌∷◌, ◌++◌,
  map, reverse, append-nil, append_assoc, reverse-append, reverse-cons, arith, ltb, leb, ◌==◌,
  if◌then◌else◌, ltb→lt, lt→ltb, leb→le, ==_iff, Bool-cases, Option-cases, and-eq-true, length,
  get_elem?, get_or, set, take, drop, concat, All, length-append, length-reverse, length-set,
  get_or-set_self, get_or-set_ne, get_or-append_left, get_or-append_length, All-append, All-map,
  lookup, contains, emplace, modify, Eq, lookup-append, lookup-emplace, lookup-modify,
}
use puc.Base.Sorting.{count, sort, count-append, count-sort, length-sort}
use puc.Base.Bytes.{Bytes, bytes_eq, bytes_eq_refl, bytes_eq_iff, bytes}

-- What `std::regular` and `std::totally_ordered` give for the keys.
pub record TrieKey {ℓ} (K : Type ℓ) : Type ℓ where
  pub eq_key : Eq K
  pub less : K → K → Bool
  pub less_irrefl : (a : K) → less a a ≡ false
  pub less_trans : (a b c : K) → less a b ≡ true → less b c ≡ true → less a c ≡ true
  pub less_total : (a b : K) → eq_key.beq a b ≡ false → less a b ≡ false → less b a ≡ true

pub record TrieNode {ℓ κ} (K : Type ℓ) (V : Type κ) : Type (ℓ ⊔ κ) where
  pub key : K
  pub children : List ℕ
  pub sequence_end : Bool
  pub value : V

-- `std::lower_bound` on the positions from `first` to `first + count`, by halving; `before` says
-- which elements come before the one that is sought. The count bounds the rounds.
unfoldable pub lower_bound_from : (ℕ → Bool) → List ℕ → ℕ → ℕ → ℕ → ℕ
lower_bound_from before xs zero first count = first
lower_bound_from before xs (suc fuel) first count =
    let half = count / 2 in
    let right = lower_bound_from before xs fuel (first + half + 1) (count - half - 1) in
    let left = lower_bound_from before xs fuel first half in
    if count == 0 then first else if before (get_or xs (first + half) 0) then right else left

unfoldable pub lower_bound : (ℕ → Bool) → List ℕ → ℕ
lower_bound before xs = lower_bound_from before xs (length xs) 0 (length xs)

-- The linear scan of a child list for a key.
unfoldable pub scan {ℓ} : {K : Type ℓ} → (K → K → Bool) → (ℕ → K) → K → List ℕ → Option ℕ
scan beq key_of key [] = none
scan beq key_of key (c ∷ cs) = if beq (key_of c) key then some c else scan beq key_of key cs

-- `children.insert(position, child)`.
abbrev pub insert_at : ℕ → ℕ → List ℕ → List ℕ
insert_at position child xs = take position xs ++ (child ∷ drop position xs)

module _ {ℓ κ} {K : Type ℓ} {V : Type κ} (o : TrieKey K) (default_key : K) (default_value : V) where
  abbrev pub Nodes : Type (ℓ ⊔ κ)
  Nodes = List (TrieNode K V)

  abbrev pub blank : TrieNode K V
  blank = record { key = default_key; children = []; sequence_end = false; value = default_value }

  -- An index past the end, which no caller passes, reads a blank node.
  abbrev pub node : Nodes → ℕ → TrieNode K V
  node nodes i = get_or nodes i blank

  abbrev pub key_at : Nodes → ℕ → K
  key_at nodes i = (node nodes i).key

  abbrev pub empty : Nodes
  empty = blank ∷ []

  unfoldable pub binary_search : Nodes → K → List ℕ → Option ℕ
  binary_search nodes key children =
      elim (get_elem? children (lower_bound (λ c. o.less (key_at nodes c) key) children)) [
        | none ↦ none
        | some candidate ↦
            if o.eq_key.beq (key_at nodes candidate) key then some candidate else none
      ]

  unfoldable pub find_child : Nodes → ℕ → K → Option ℕ
  find_child nodes i key =
      let children = (node nodes i).children in
      if leb (length nodes) i
      then none
      else if leb (length children) 8
      then scan o.eq_key.beq (key_at nodes) key children
      else binary_search nodes key children

  -- The loop of `find_node` from a node.
  unfoldable pub find_node_from : Nodes → ℕ → List K → Option ℕ
  find_node_from nodes current [] = some current
  find_node_from nodes current (key ∷ keys) = elim (find_child nodes current key) [
    | none ↦ none
    | some child ↦ find_node_from nodes child keys
  ]

  abbrev pub find_node : Nodes → List K → Option ℕ
  find_node nodes keys = find_node_from nodes 0 keys

  -- The value of a node that ends a sequence.
  unfoldable pub value_at : Nodes → ℕ → Option V
  value_at nodes i = if (node nodes i).sequence_end then some (node nodes i).value else none

  unfoldable pub find_from : Nodes → ℕ → List K → Option V
  find_from nodes i keys = elim (find_node_from nodes i keys) [
    | none ↦ none
    | some i ↦ value_at nodes i
  ]

  abbrev pub find : Nodes → List K → Option V
  find nodes keys = find_from nodes 0 keys

  unfoldable pub contains_sequence : Nodes → List K → Bool
  contains_sequence nodes keys = elim (find_node nodes keys) [
    | none ↦ false
    | some i ↦ (node nodes i).sequence_end
  ]

  -- The new node behind the others, and its index among its parent's children.
  unfoldable pub append_child : Nodes → ℕ → K → Nodes
  append_child nodes parent key =
      let child = length nodes in
      let grown = nodes ++ (record blank { key = key } ∷ []) in
      let n = node grown parent in
      let position = lower_bound (λ c. o.less (key_at grown c) key) n.children in
      set grown parent (record n { children = insert_at position child n.children })

  -- One round of the loop of `insert`: the nodes and the child.
  unfoldable pub step : Nodes → ℕ → K → Nodes × ℕ
  step nodes current key = elim (find_child nodes current key) [
    | none ↦ (append_child nodes current key, length nodes)
    | some child ↦ (nodes, child)
  ]

  unfoldable pub walk : Nodes → ℕ → List K → Nodes × ℕ
  walk nodes current [] = (nodes, current)
  walk nodes current (key ∷ keys) = let r = step nodes current key in walk r.0 r.1 keys

  unfoldable pub set_value : Nodes → ℕ → Bool → V → Nodes
  set_value nodes i sequence_end value =
      set nodes i (record (node nodes i) { sequence_end = sequence_end; value = value })

  unfoldable pub insert : Nodes → List K → V → Nodes × ℕ
  insert nodes keys value = let r = walk nodes 0 keys in (set_value r.0 r.1 true value, r.1)

  unfoldable pub erase : Nodes → List K → Bool × Nodes
  erase nodes keys = elim (find_node nodes keys) [
    | none ↦ (false, nodes)
    | some i ↦
        if (node nodes i).sequence_end
        then (true, set_value nodes i false default_value)
        else (false, nodes)
  ]
