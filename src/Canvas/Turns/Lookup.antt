-- ===== src/Canvas/Turns/Lookup.antt =====
-- `find` of canvas/turn/turn_tree.cpp after `apply`.
use puc.Base.{
  ℕ, ◌-◌, ◌<◌, ◌≡◌, refl, sym, ap, ap₂, subst, ◌∙◌, ◌≢◌, inl, inr, Bool, true, Option, none, some,
  List, [], arith, if◌then◌else◌, Bool-cases, Option-cases, length,
}
use puc.Base.Bytes.{Bytes}
use puc.Canvas.Address.{TurnAddress, AddressComponent, Kind, parse}
use puc.Canvas.Address.Valid.{parse-IsValidAddress}
use mathlib.Core.Option.{some-injective}
use puc.Trie.{TrieNode, insert, find, find_from, value_at}
use puc.Trie.Contents.{find-insert_self, find-insert_other}
use puc.Trie.Stability.{set_value-find}
use puc.Canvas.Turns.{
  Turn, TurnNode, TurnTree, component_key, no_component, empty_turn, new_node, find_turn, node_of,
  write_counter,
}
use puc.Canvas.Turns.Counters.{
  IsCounted, Keeps-IsParent, IsParent-inside, insert-IsCounted, insert-Keeps, is_end,
  write_counter-end, write_counter-turn,
}
use puc.Canvas.Turns.Issue.{is_ok, text_of}
use puc.Canvas.Turns.Hashing.{commit, apply}
use puc.Canvas.Turns.Committing.{Commits, apply-Outcome}

module _ {C : Type 0} (no_content : C) where
  -- `TurnTree::find`.
  unfoldable pub find_address : TurnTree C → TurnAddress → Option (Turn C)
  find_address tree address =
      elim (find component_key no_component (new_node (empty_turn no_content)) tree.trie address) [
        | none ↦ none
        | some found ↦ some found.turn
      ]

  -- `TurnTree::size`.
  abbrev pub size : TurnTree C → ℕ
  size tree = length tree.trie - 1

  read_turn : List (TrieNode AddressComponent (TurnNode C)) → Option ℕ → Option (Turn C)
  read_turn trie none = none
  read_turn trie (some i) =
      if is_end no_content trie i then some (node_of no_content trie i).value.turn else none

  find_address-read_turn :
      (tree : TurnTree C) (address : TurnAddress)
      → find_address tree address ≡ read_turn tree.trie (find_turn no_content tree.trie address)
  unfolding find_address find_from value_at read_turn
  find_address-read_turn tree address =
      elim (Option-cases (find_turn no_content tree.trie address)) [
        | inl m ↦ rw (m, find_from, find_address, read_turn) refl
        | inr (i, m) ↦ elim (Bool-cases (is_end no_content tree.trie i)) [
          | inl b ↦ rw (m, find_from, find_address, read_turn, value_at, b) refl
          | inr b ↦ rw (m, find_from, find_address, read_turn, value_at, b) refl
        ]
      ]

  write_counter-read_turn :
      (trie : List (TrieNode AddressComponent (TurnNode C))) (i : ℕ) (kind : Kind) (next : ℕ)
      (m : Option ℕ)
      → i < length trie
      → read_turn (write_counter no_content trie i kind next) m ≡ read_turn trie m
  unfolding read_turn
  write_counter-read_turn trie i kind next none l = refl
  write_counter-read_turn trie i kind next (some j) l =
      ap₂ (λ (b : Bool) (t : Turn C). if b then some t else none)
        (write_counter-end no_content trie i j kind next l)
        (write_counter-turn no_content trie i j kind next l)

  -- `find_address` on a trie alone.
  found_turn : List (TrieNode AddressComponent (TurnNode C)) → TurnAddress → Option (Turn C)
  found_turn trie address = read_turn trie (find_turn no_content trie address)

  write_counter-found_turn :
      (trie : List (TrieNode AddressComponent (TurnNode C))) (i : ℕ) (kind : Kind) (next : ℕ)
      (address : TurnAddress)
      → IsCounted no_content trie
      → i < length trie
      → found_turn (write_counter no_content trie i kind next) address ≡ found_turn trie address
  unfolding write_counter found_turn
  write_counter-found_turn trie i kind next address h l =
      ap (read_turn (write_counter no_content trie i kind next)) (
        set_value-find component_key no_component (new_node (empty_turn no_content)) trie i _ _
          address h.formed l)
      ∙ write_counter-read_turn trie i kind next (find_turn no_content trie address) l

  abbrev of_trie : List (TrieNode AddressComponent (TurnNode C)) → TurnTree C
  of_trie trie = record { trie = trie; hashes = []; root_hash = [] }

  found_turn_self :
      (trie : List (TrieNode AddressComponent (TurnNode C))) (turn : Turn C) (address : TurnAddress)
      → IsCounted no_content trie
      → found_turn
          (insert component_key no_component
            (new_node (empty_turn no_content))
            trie
            address
            (new_node turn)).0
          address
        ≡ some turn
  unfolding found_turn find_address
  found_turn_self trie turn address h =
      let inserted =
        (insert component_key no_component (new_node (empty_turn no_content)) trie address
          (new_node turn)).0 in
      let found =
        find-insert_self component_key no_component (new_node (empty_turn no_content)) trie address
          (new_node turn) h.formed in
      sym (find_address-read_turn (of_trie inserted) address) ∙ rw (find_address, found) refl

  found_turn-other :
      (trie : List (TrieNode AddressComponent (TurnNode C))) (turn : Turn C)
      (address other : TurnAddress)
      → IsCounted no_content trie
      → other ≢ address
      → found_turn
          (insert component_key no_component
            (new_node (empty_turn no_content))
            trie
            address
            (new_node turn)).0
          other
        ≡ found_turn trie other
  unfolding found_turn find_address
  found_turn-other trie turn address other h n =
      let inserted =
        (insert component_key no_component (new_node (empty_turn no_content)) trie address
          (new_node turn)).0 in
      let found =
        find-insert_other component_key no_component (new_node (empty_turn no_content)) trie address
          other (new_node turn) h.formed n in
      sym (find_address-read_turn (of_trie inserted) other)
      ∙ rw (find_address, found) refl
      ∙ find_address-read_turn (of_trie trie) other

module _ {C : Type 0} (no_content : C) (sha256 : Bytes → Bytes)
    (serialize : Turn C → Option Bytes) where
  commit-inside :
      (turn : Turn C) (tree after : TurnTree C)
      → IsCounted no_content tree.trie
      → (c : Commits no_content sha256 serialize turn tree after)
      → c.index
        < length
            (insert component_key no_component
              (new_node (empty_turn no_content))
              tree.trie
              c.address
              (new_node turn)).0
  commit-inside turn tree after h c =
      let inserted =
        (insert component_key no_component (new_node (empty_turn no_content)) tree.trie c.address
          (new_node turn)).0 in
      let p = c.under.parent in
      let nonempty = (parse-IsValidAddress (text_of turn.id) c.address c.parses).nonempty in
      let kept =
        insert-Keeps no_content tree.trie turn c.address p c.index h c.absent nonempty
          c.under.parent_stands in
      IsParent-inside no_content inserted p c.index
        (insert-IsCounted no_content tree.trie turn c.address h)
        (Keeps-IsParent no_content tree.trie inserted p c.index kept c.under.parent_stands)

  commit-find_address :
      (turn : Turn C) (tree after : TurnTree C) (other : TurnAddress)
      → IsCounted no_content tree.trie
      → (c : Commits no_content sha256 serialize turn tree after)
      → find_address no_content after other
        ≡ found_turn no_content
            (insert component_key no_component
              (new_node (empty_turn no_content))
              tree.trie
              c.address
              (new_node turn)).0
            other
  unfolding commit found_turn
  commit-find_address turn tree after other h c =
      ap (λ (t : TurnTree C). find_address no_content t other) c.committed_as
      ∙ find_address-read_turn no_content _ other
      ∙ write_counter-found_turn no_content _ c.index _ _ other
          (insert-IsCounted no_content tree.trie turn c.address h)
          (commit-inside turn tree after h c)

  -- A tree before and after a turn was committed at an address.
  pub record IsUpdated (turn : Turn C) (address : TurnAddress) (tree after : TurnTree C)
      : Type 0 where
    pub there : find_address no_content after address ≡ some turn
    pub others :
        (other : TurnAddress)
        → other ≢ address
        → find_address no_content after other ≡ find_address no_content tree other

  -- When `apply` succeeds on a well-formed tree, the turn's address finds the turn, and every other
  -- address finds what it found before.
  pub apply-IsUpdated :
      (turn : Turn C) (tree : TurnTree C) (address : TurnAddress)
      → IsCounted no_content tree.trie
      → parse (text_of turn.id) ≡ some address
      → is_ok (apply no_content sha256 serialize turn tree).0 ≡ true
      → IsUpdated turn address tree (apply no_content sha256 serialize turn tree).1
  unfolding found_turn
  apply-IsUpdated turn tree address h e good =
      let after = (apply no_content sha256 serialize turn tree).1 in
      elim (apply-Outcome no_content sha256 serialize turn tree) [
        | inl (f, same) ↦ absurd (ground (arith, good, f))
        | inr (f, c) ↦
            subst (λ (a : TurnAddress). IsUpdated turn a tree after)
              (some-injective _ _ (sym c.parses ∙ e))
              (record {
                there =
                    commit-find_address turn tree after c.address h c
                    ∙ found_turn_self no_content tree.trie turn c.address h;
                others = λ other n.
                    commit-find_address turn tree after other h c
                    ∙ found_turn-other no_content tree.trie turn c.address other h n
                    ∙ sym (find_address-read_turn no_content tree other);
              })
      ]
