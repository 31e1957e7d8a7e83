-- ===== src/Canvas/Turns/Counters.antt =====
-- The counters of canvas/turn/turn_tree.cpp only pass ordinals: what a counter has passed stays
-- passed through a reservation, a committed turn and an insertion.
use puc.Base.{
  ℕ, ◌≤◌, ◌<◌, ◌≡◌, refl, sym, ap, subst, ◌∙◌, ◌≢◌, ◌⊎◌, inl, inr, Bool, true, none, some, List, [],
  arith, ◌==◌, Bool-cases, length,
}
use puc.Canvas.Address.{TurnAddress, AddressComponent, Kind, numeric, alphabetic}
use puc.Trie.{TrieNode, insert}
use puc.Trie.Paths.{IsTrie}
use puc.Trie.Contents.{insert-IsTrie}
use puc.Trie.Writes.{set_value-HasPaths}
use puc.Trie.Stability.{
  path_of, set_value-find, set_value-SameNode, set_value_self, insert-SameNode, insert-value,
}
use puc.Canvas.Turns.Passing.{Advances}
use puc.Canvas.Turns.{
  Turn, TurnNode, component_key, no_component, empty_turn, new_node, node_of, find_turn, committed,
  allocator, with_allocator, write_counter, u32_max,
}

module _ {C : Type 0} (no_content : C) where
  abbrev Trie : Type 0
  Trie = List (TrieNode AddressComponent (TurnNode C))

  abbrev pub counter : Trie → ℕ → Kind → ℕ
  counter trie i kind = allocator kind (node_of no_content trie i).value

  abbrev pub is_end : Trie → ℕ → Bool
  is_end trie i = (node_of no_content trie i).sequence_end

  -- The tree's trie: well-formed, with counters of 32 bits.
  pub record IsCounted (trie : Trie) : Type 0 where
    pub formed : IsTrie component_key no_component (new_node (empty_turn no_content)) trie
    pub bounded : (i : ℕ) (kind : Kind) → counter trie i kind ≤ u32_max

  -- The node of a parent that may have children: the root, or a committed turn.
  pub record IsParent (trie : Trie) (parent : TurnAddress) (i : ℕ) : Type 0 where
    pub found : find_turn no_content trie parent ≡ some i
    pub standing : (parent ≡ []) ⊎ (is_end trie i ≡ true)

  -- A parent and its counters, before and after a change.
  pub record Keeps (trie after : Trie) (parent : TurnAddress) (i : ℕ) : Type 0 where
    pub found : find_turn no_content after parent ≡ some i
    pub same_end : is_end after i ≡ is_end trie i
    pub counters : (kind : Kind) → Advances (counter trie i kind) (counter after i kind)

  pub Keeps-IsParent :
      (trie after : Trie) (parent : TurnAddress) (i : ℕ)
      → Keeps trie after parent i
      → IsParent trie parent i
      → IsParent after parent i
  Keeps-IsParent trie after parent i k p = record {
    found = k.found;
    standing = elim p.standing [ inl e ↦ inl e | inr e ↦ inr (k.same_end ∙ e) ];
  }

  allocator-with :
      (kind other : Kind) (next : ℕ) (n : TurnNode C)
      → (allocator other (with_allocator kind next n) ≡ allocator other n)
        ⊎ ((kind ≡ other) × (allocator other (with_allocator kind next n) ≡ next))
  allocator-with numeric numeric next n = inr (refl, refl)
  allocator-with numeric alphabetic next n = inl refl
  allocator-with alphabetic numeric next n = inl refl
  allocator-with alphabetic alphabetic next n = inr (refl, refl)

  -- A write changes one counter of one node.
  pub write_counter-counter :
      (trie : Trie) (i j : ℕ) (kind other : Kind) (next : ℕ)
      → i < length trie
      → (counter (write_counter no_content trie i kind next) j other ≡ counter trie j other)
        ⊎ ((i ≡ j)
            × ((kind ≡ other)
                × (counter (write_counter no_content trie i kind next) j other ≡ next)))
  unfolding write_counter
  write_counter-counter trie i j kind other next l =
      let n = node_of no_content trie i in
      elim (Bool-cases (i == j)) [
        | inr e ↦ inl (
            ap (allocator other)
              (set_value-SameNode component_key no_component (new_node (empty_turn no_content)) trie
                i j n.sequence_end (with_allocator kind next n.value)
                (ground (arith, e))).same_value)
        | inl e ↦
            let same : i ≡ j = ground (arith, e) in
            let written =
              (set_value_self component_key no_component (new_node (empty_turn no_content)) trie i
                n.sequence_end (with_allocator kind next n.value) l).0 in
            subst
              (λ (m : ℕ).
                (counter (write_counter no_content trie i kind next) m other ≡ counter trie m other)
                ⊎ ((i ≡ m)
                    × ((kind ≡ other)
                        × (counter (write_counter no_content trie i kind next) m other ≡ next))))
              same
              (elim (allocator-with kind other next n.value) [
                | inl a ↦ inl (ap (allocator other) written ∙ a)
                | inr (k, a) ↦ inr (refl, (k, ap (allocator other) written ∙ a))
              ])
      ]

  with_allocator_self :
      (kind : Kind) (next : ℕ) (n : TurnNode C) → allocator kind (with_allocator kind next n) ≡ next
  with_allocator_self numeric next n = refl
  with_allocator_self alphabetic next n = refl

  pub write_counter_self :
      (trie : Trie) (i : ℕ) (kind : Kind) (next : ℕ)
      → i < length trie
      → counter (write_counter no_content trie i kind next) i kind ≡ next
  unfolding write_counter
  write_counter_self trie i kind next l =
      let n = node_of no_content trie i in
      ap (allocator kind)
        (set_value_self component_key no_component (new_node (empty_turn no_content)) trie i
          n.sequence_end (with_allocator kind next n.value) l).0
      ∙ with_allocator_self kind next n.value

  pub write_counter-end :
      (trie : Trie) (i j : ℕ) (kind : Kind) (next : ℕ)
      → i < length trie
      → is_end (write_counter no_content trie i kind next) j ≡ is_end trie j
  unfolding write_counter
  write_counter-end trie i j kind next l =
      let n = node_of no_content trie i in
      elim (Bool-cases (i == j)) [
        | inr e ↦
            (set_value-SameNode component_key no_component (new_node (empty_turn no_content)) trie i
              j n.sequence_end (with_allocator kind next n.value) (ground (arith, e))).same_end
        | inl e ↦
            subst (λ (m : ℕ). is_end (write_counter no_content trie i kind next) m ≡ is_end trie m)
              (ground (arith, e))
              (set_value_self component_key no_component (new_node (empty_turn no_content)) trie i
                n.sequence_end (with_allocator kind next n.value) l).1
      ]

  with_allocator-turn :
      (kind : Kind) (next : ℕ) (n : TurnNode C) → (with_allocator kind next n).turn ≡ n.turn
  with_allocator-turn numeric next n = refl
  with_allocator-turn alphabetic next n = refl

  -- A write to a counter keeps every turn.
  pub write_counter-turn :
      (trie : Trie) (i j : ℕ) (kind : Kind) (next : ℕ)
      → i < length trie
      → (node_of no_content (write_counter no_content trie i kind next) j).value.turn
        ≡ (node_of no_content trie j).value.turn
  unfolding write_counter
  write_counter-turn trie i j kind next l =
      let n = node_of no_content trie i in
      elim (Bool-cases (i == j)) [
        | inr e ↦
            ap (λ (v : TurnNode C). v.turn)
              (set_value-SameNode component_key no_component (new_node (empty_turn no_content)) trie
                i j n.sequence_end (with_allocator kind next n.value)
                (ground (arith, e))).same_value
        | inl e ↦
            subst
              (λ (m : ℕ).
                (node_of no_content (write_counter no_content trie i kind next) m).value.turn
                ≡ (node_of no_content trie m).value.turn)
              (ground (arith, e))
              (ap (λ (v : TurnNode C). v.turn)
                  (set_value_self component_key no_component (new_node (empty_turn no_content)) trie
                    i n.sequence_end (with_allocator kind next n.value) l).0
                ∙ with_allocator-turn kind next n.value)
      ]

  pub IsParent-inside :
      (trie : Trie) (parent : TurnAddress) (i : ℕ)
      → IsCounted trie
      → IsParent trie parent i
      → i < length trie
  IsParent-inside trie parent i h p =
      (path_of component_key no_component (new_node (empty_turn no_content)) trie parent i h.formed
        p.found).0

  -- A write that advances a counter keeps every parent.
  pub write_counter-Keeps :
      (trie : Trie) (i : ℕ) (kind : Kind) (next : ℕ) (parent : TurnAddress) (j : ℕ)
      → IsCounted trie
      → i < length trie
      → Advances (counter trie i kind) next
      → IsParent trie parent j
      → Keeps trie (write_counter no_content trie i kind next) parent j
  unfolding write_counter
  write_counter-Keeps trie i kind next parent j h l a p = record {
    found =
        set_value-find component_key no_component (new_node (empty_turn no_content)) trie i _ _
          parent h.formed l
        ∙ p.found;
    same_end = write_counter-end trie i j kind next l;
    counters = λ other. elim (write_counter-counter trie i j kind other next l) [
      | inl e ↦ inl e
      | inr (same, (k, e)) ↦ subst (Advances (counter trie j other)) (sym e) (
          subst (λ (m : ℕ). Advances (counter trie m other) next) same
            (subst (λ (o : Kind). Advances (counter trie i o) next) k a))
    ];
  }

  pub write_counter-IsCounted :
      (trie : Trie) (i : ℕ) (kind : Kind) (next : ℕ)
      → IsCounted trie
      → i < length trie
      → next ≤ u32_max
      → IsCounted (write_counter no_content trie i kind next)
  unfolding write_counter
  write_counter-IsCounted trie i kind next h l m = record {
    formed = (
      h.formed.0,
      set_value-HasPaths component_key no_component (new_node (empty_turn no_content)) trie
          h.formed.0 i _ _ h.formed.1 l,
    );
    bounded = λ j other. elim (write_counter-counter trie i j kind other next l) [
      | inl e ↦ subst (λ (n : ℕ). n ≤ u32_max) (sym e) (h.bounded j other)
      | inr (same, (k, e)) ↦ subst (λ (n : ℕ). n ≤ u32_max) (sym e) m
    ];
  }

  -- The insertion of a turn that is not there.
  pub insert-Keeps :
      (trie : Trie) (turn : Turn C) (address parent : TurnAddress) (i : ℕ)
      → IsCounted trie
      → committed no_content trie address ≡ none
      → address ≢ []
      → IsParent trie parent i
      → Keeps trie
          (insert component_key no_component
            (new_node (empty_turn no_content))
            trie
            address
            (new_node turn)).0
          parent
          i
  unfolding committed
  insert-Keeps trie turn address parent i h c n p =
      let apart : parent ≢ address = λ e. elim p.standing [
        | inl z ↦ n (sym e ∙ z)
        | inr z ↦
            let found : find_turn no_content trie address ≡ some i =
              ap (find_turn no_content trie) (sym e) ∙ p.found in
            absurd (ground (arith, found, z, c))
      ] in
      let s =
        insert-SameNode component_key no_component (new_node (empty_turn no_content)) trie address
          parent (new_node turn) i h.formed apart p.found in
      record {
        found = s.0;
        same_end = s.1.same_end;
        counters = λ kind. inl (ap (allocator kind) s.1.same_value);
      }

  fresh_counter : (kind : Kind) (turn : Turn C) → allocator kind (new_node turn) ≤ u32_max
  fresh_counter numeric turn = omega arith
  fresh_counter alphabetic turn = omega arith

  pub insert-IsCounted :
      (trie : Trie) (turn : Turn C) (address : TurnAddress)
      → IsCounted trie
      → IsCounted
          (insert component_key no_component
            (new_node (empty_turn no_content))
            trie
            address
            (new_node turn)).0
  insert-IsCounted trie turn address h = record {
    formed =
        insert-IsTrie component_key no_component (new_node (empty_turn no_content)) trie address
          (new_node turn) h.formed;
    bounded = λ j kind.
        elim (insert-value component_key no_component (new_node (empty_turn no_content)) trie
          address (new_node turn) j h.formed) [
            | inl e ↦
                subst (λ (n : ℕ). n ≤ u32_max) (sym (ap (allocator kind) e))
                  (fresh_counter kind turn)
            | inr e ↦
                subst (λ (n : ℕ). n ≤ u32_max) (sym (ap (allocator kind) e)) (h.bounded j kind)
          ];
  }
