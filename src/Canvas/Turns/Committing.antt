-- ===== src/Canvas/Turns/Committing.antt =====
-- What `apply` of canvas/turn/turn_tree.cpp does: it fails and changes nothing, or commits a turn.
use puc.Base.{
  ℕ, ◌+◌, ◌≤◌, ◌≡◌, refl, ap, ◌∙◌, ◌⊎◌, inl, inr, true, false, Option, none, some, List, [], ◌∷◌,
  arith, ltb, ◌==◌, Bool-cases, Option-cases, length,
}
use puc.Base.Bytes.{Bytes, bytes_eq}
use puc.Canvas.Address.{TurnAddress, AddressComponent, Kind, numeric, alphabetic, component, parse}
use puc.Trie.{TrieNode}
use puc.Canvas.Turns.{
  TurnId, Turn, TurnNode, TurnTree, Status, committed, u32_max, last_component, child_of,
  direct_child, identity,
}
use puc.Canvas.Turns.Counters.{IsParent}
use puc.Canvas.Turns.Hashing.{
  Parent, refused, accepted, parent_node, parent_of, apply_at, apply, commit,
}
use puc.Canvas.Turns.Issue.{is_ok, text_of, address_eq-eq, root-IsParent, committed-IsParent}

direct_child-eq :
    (parent child : TurnAddress)
    → direct_child parent child ≡ true
    → child_of (last_component child).kind parent (last_component child).ordinal ≡ child
unfolding direct_child
direct_child-eq parent child e = elim (Bool-cases (length child == length parent + 1)) [
  | inr b ↦ absurd (ground (arith, b, e))
  | inl b ↦ address_eq-eq _ child (ground (arith, b, e))
]

identity-text :
    (id : Option TurnId) (uuid text : Bytes) → identity id ≡ some (uuid, text) → text_of id ≡ text
unfolding identity
identity-text none uuid text e = absurd (ground (arith, e))
identity-text (some id) uuid text e = elim (Option-cases id.human_address) [
  | inl m ↦ absurd (ground (arith, m, e))
  | inr (t, m) ↦ elim (Option-cases id.canvas_uuid) [
    | inl l ↦ absurd (ground (arith, m, l, e))
    | inr (u, l) ↦ ground (arith, m, l, e)
  ]
]

module _ {C : Type 0} (no_content : C) where
  -- A parent under which an address stands.
  pub record Hangs (trie : List (TrieNode AddressComponent (TurnNode C))) (address : TurnAddress)
      (i : ℕ) : Type 0 where
    pub parent : TurnAddress
    pub parent_stands : IsParent no_content trie parent i
    pub is_child :
        child_of (last_component address).kind parent (last_component address).ordinal ≡ address

  abbrev ParentOutcome :
      List (TrieNode AddressComponent (TurnNode C)) → TurnAddress → Parent → Type 0
  ParentOutcome trie address (refused status) = is_ok status ≡ false
  ParentOutcome trie address (accepted i) = Hangs trie address i

  parent_node-Outcome :
      (uuid : Bytes) (address : TurnAddress) (from : TurnId)
      (trie : List (TrieNode AddressComponent (TurnNode C)))
      → ParentOutcome trie address (parent_node no_content uuid address from trie)
  unfolding parent_node
  parent_node-Outcome uuid address from trie = elim (Option-cases (identity (some from))) [
    | inl m ↦ rw (parent_node, m) refl
    | inr ((u, text), m) ↦ elim (Bool-cases (bytes_eq u uuid)) [
      | inr b ↦ rw (parent_node, m, b) refl
      | inl b ↦ elim (Option-cases (parse text)) [
        | inl l ↦ rw (parent_node, m, b, l) refl
        | inr (p, l) ↦ elim (Bool-cases (direct_child p address)) [
          | inr d ↦ rw (parent_node, m, b, l, d) refl
          | inl d ↦ elim (Option-cases (committed no_content trie p)) [
            | inl k ↦ rw (parent_node, m, b, l, d, k) refl
            | inr (i, k) ↦
                rw (parent_node, m, b, l, d, k)
                  (record {
                    parent = p;
                    parent_stands = committed-IsParent no_content trie p i k;
                    is_child = direct_child-eq p address d;
                  })
          ]
        ]
      ]
    ]
  ]

  root-Outcome :
      (uuid : Bytes) (kind : Kind) (n : ℕ) (trie : List (TrieNode AddressComponent (TurnNode C)))
      → ParentOutcome trie
          (component kind n ∷ [])
          (parent_of no_content uuid (component kind n ∷ []) none trie)
  unfolding parent_of
  root-Outcome uuid alphabetic n trie = refl
  root-Outcome uuid numeric n trie = record {
    parent = [];
    parent_stands = root-IsParent no_content trie;
    is_child = refl;
  }

  parent_of-Outcome :
      (uuid : Bytes) (address : TurnAddress) (from : Option TurnId)
      (trie : List (TrieNode AddressComponent (TurnNode C)))
      → ParentOutcome trie address (parent_of no_content uuid address from trie)
  unfolding parent_of
  parent_of-Outcome uuid [] none trie = refl
  parent_of-Outcome uuid (c ∷ []) none trie = root-Outcome uuid c.kind c.ordinal trie
  parent_of-Outcome uuid (c ∷ d ∷ ds) none trie = refl
  parent_of-Outcome uuid address (some from) trie = parent_node-Outcome uuid address from trie

  parent_of-cases :
      (uuid : Bytes) (address : TurnAddress) (from : Option TurnId)
      (trie : List (TrieNode AddressComponent (TurnNode C)))
      → ((status : Status) × ((parent_of no_content uuid address from trie ≡ refused status)
            × (is_ok status ≡ false)))
        ⊎ ((i : ℕ) × ((parent_of no_content uuid address from trie ≡ accepted i)
              × Hangs trie address i))
  parent_of-cases uuid address from trie =
      go (parent_of no_content uuid address from trie) refl
        (parent_of-Outcome uuid address from trie)
    where
      go :
          (p : Parent)
          → parent_of no_content uuid address from trie ≡ p
          → ParentOutcome trie address p
          → ((status : Status) × ((parent_of no_content uuid address from trie ≡ refused status)
                × (is_ok status ≡ false)))
            ⊎ ((i : ℕ) × ((parent_of no_content uuid address from trie ≡ accepted i)
                  × Hangs trie address i))
      go (refused status) e o = inl (status, (e, o))
      go (accepted i) e o = inr (i, (e, o))

module _ {C : Type 0} (no_content : C) (sha256 : Bytes → Bytes)
    (serialize : Turn C → Option Bytes) where
  -- A committed turn: its address was free, and it hangs on a standing parent.
  pub record Commits (turn : Turn C) (tree : TurnTree C) (after : TurnTree C) : Type 0 where
    pub address : TurnAddress
    pub index : ℕ
    pub parses : parse (text_of turn.id) ≡ some address
    pub under : Hangs no_content tree.trie address index
    pub fits : (last_component address).ordinal ≤ u32_max
    pub absent : committed no_content tree.trie address ≡ none
    pub committed_as : after ≡ commit no_content sha256 serialize turn address index tree

  abbrev pub ApplyOutcome : Turn C → TurnTree C → Status × TurnTree C → Type 0
  ApplyOutcome turn tree r =
      ((is_ok r.0 ≡ false) × (r.1 ≡ tree)) ⊎ ((is_ok r.0 ≡ true) × Commits turn tree r.1)

  apply_at-Outcome :
      (turn : Turn C) (uuid : Bytes) (address : TurnAddress) (tree : TurnTree C)
      → parse (text_of turn.id) ≡ some address
      → (last_component address).ordinal ≤ u32_max
      → ApplyOutcome turn tree (apply_at no_content sha256 serialize turn uuid address tree)
  unfolding apply_at
  apply_at-Outcome turn uuid address tree e m =
      elim (parent_of-cases no_content uuid address turn.parent tree.trie) [
        | inl (status, (q, bad)) ↦ rw (apply_at, q) (inl (bad, refl))
        | inr (i, (q, under)) ↦ elim (Option-cases (committed no_content tree.trie address)) [
          | inr (j, k) ↦ rw (apply_at, q, k) (inl (refl, refl))
          | inl k ↦
              rw (apply_at, q, k)
                (inr (
                  refl,
                  record {
                    address = address;
                    index = i;
                    parses = e;
                    under = under;
                    fits = m;
                    absent = k;
                    committed_as = refl;
                  },
                ))
        ]
      ]

  -- `apply` fails and changes nothing, or it commits the turn.
  pub apply-Outcome :
      (turn : Turn C) (tree : TurnTree C)
      → ApplyOutcome turn tree (apply no_content sha256 serialize turn tree)
  unfolding apply
  apply-Outcome turn tree = elim (Option-cases (identity turn.id)) [
    | inl m ↦ rw (apply, m) (inl (refl, refl))
    | inr ((uuid, text), m) ↦ elim (Option-cases (parse text)) [
      | inl l ↦ rw (apply, m, l) (inl (refl, refl))
      | inr (address, l) ↦ elim (Bool-cases (length uuid == 16)) [
        | inr b ↦ rw (apply, m, l, b) (inl (refl, refl))
        | inl b ↦ elim (Bool-cases (ltb u32_max (last_component address).ordinal)) [
          | inl d ↦ rw (apply, m, l, b, d) (inl (refl, refl))
          | inr d ↦
              rw (apply, m, l, b, d)
                (apply_at-Outcome turn uuid address tree
                  (ap parse (identity-text turn.id uuid text m) ∙ l) (ground (arith, d)))
        ]
      ]
    ]
  ]
