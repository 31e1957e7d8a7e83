-- ===== src/Canvas/Turns/Issue.antt =====
-- What `allocate_child` and `apply` of canvas/turn/turn_tree.cpp do when they succeed.
use puc.Base.{
  ℕ, ◌≤◌, ◌<◌, ◌≡◌, refl, ap, subst, ◌≢◌, ◌⊎◌, inl, inr, Bool, true, false, Option, none, some,
  List, [], ◌∷◌, arith, ◌==◌, Bool-cases, Option-cases, length, All, length-append, All-append,
}
use puc.Base.Bytes.{Bytes}
use puc.Canvas.Address.{
  TurnAddress, AddressComponent, Kind, numeric, alphabetic, component, parse, string,
}
use puc.Canvas.Address.Component.{IsValidComponent}
use puc.Canvas.Address.RoundTrip.{IsValidAddress}
use puc.Canvas.Address.Valid.{parse-IsValidAddress}
use puc.Trie.{TrieNode, find_node_from}
use puc.Canvas.Turns.{
  TurnId, Turn, TurnNode, TurnTree, Status, ok, find_turn, committed, write_counter, after_ordinal,
  u32_max, child_of, address_eq, has_bytes, allocate_at, allocate_below, allocate_child,
}
use puc.Canvas.Turns.Counters.{IsParent, counter, is_end}

abbrev pub is_ok : Status → Bool
is_ok ok = true
is_ok _ = false

abbrev pub text_of : Option TurnId → Bytes
text_of none = []
text_of (some id) = elim id.human_address [ none ↦ [] | some text ↦ text ]

pub address_eq-eq : (a b : TurnAddress) → address_eq a b ≡ true → a ≡ b
address_eq-eq [] [] e = refl
address_eq-eq [] (b ∷ bs) e = absurd (ground (arith, e))
address_eq-eq (a ∷ as') [] e = absurd (ground (arith, e))
address_eq-eq (a ∷ as') (b ∷ bs) e = ground (arith, e, address_eq-eq as' bs)

pub child_of-IsValidAddress :
    (kind : Kind) (parent : TurnAddress) (n : ℕ)
    → All IsValidComponent parent
    → 0 < n
    → n ≤ u32_max
    → IsValidAddress (child_of kind parent n)
child_of-IsValidAddress numeric parent n v p m = record {
  nonempty = λ e. omega (arith, ap length e, length-append parent (component numeric n ∷ []));
  components =
      All-append IsValidComponent parent (component numeric n ∷ []) v
        (record { positive = p; fits = omega (arith, m) }, tt);
}
child_of-IsValidAddress alphabetic parent n v p m = record {
  nonempty = λ e. omega (arith, ap length e, length-append parent (component alphabetic n ∷ []));
  components =
      All-append IsValidComponent parent (component alphabetic n ∷ []) v
        (record { positive = p; fits = omega (arith, m) }, tt);
}

module _ {C : Type 0} (no_content : C) where
  abbrev IsCommitted : List (TrieNode AddressComponent (TurnNode C)) → TurnAddress → ℕ → Type 0
  IsCommitted trie address i =
      (find_turn no_content trie address ≡ some i) × (is_end no_content trie i ≡ true)

  pub committed-IsParent :
      (trie : List (TrieNode AddressComponent (TurnNode C))) (address : TurnAddress) (i : ℕ)
      → committed no_content trie address ≡ some i
      → IsParent no_content trie address i
  unfolding committed
  committed-IsParent trie address i e = elim (Option-cases (find_turn no_content trie address)) [
    | inl m ↦ absurd (ground (arith, m, e))
    | inr (j, m) ↦ elim (Bool-cases (is_end no_content trie j)) [
      | inr b ↦ absurd (ground (arith, m, b, e))
      | inl b ↦
          subst (IsParent no_content trie address) (some_inj j i (ground (arith, m, b, e)))
            (record { found = m; standing = inr b })
    ]
  ]
    where
      some_inj : (j i : ℕ) → some j ≡ some i → j ≡ i
      some_inj j i e = cc

  -- An issued address: a counter of a parent gives it and moves on.
  pub record Issues (tree : TurnTree C) (text : Bytes) (after : TurnTree C) : Type 0 where
    pub kind : Kind
    pub parent : TurnAddress
    pub index : ℕ
    pub parent_stands : IsParent no_content tree.trie parent index
    pub valid : All IsValidComponent parent
    pub available : counter no_content tree.trie index kind ≢ 0
    pub issued : text ≡ string (child_of kind parent (counter no_content tree.trie index kind))
    pub moves :
        after.trie
        ≡ write_counter no_content tree.trie index kind
            (after_ordinal (counter no_content tree.trie index kind))

  -- Either nothing happens, or an address is issued.
  abbrev pub Outcome : TurnTree C → Status × Turn C × TurnTree C → Type 0
  Outcome tree r =
      ((is_ok r.0 ≡ false) × (r.2 ≡ tree)) ⊎ ((is_ok r.0 ≡ true) × Issues tree (text_of r.1.id) r.2)

  allocate_at-Outcome :
      (uuid : Bytes) (from : Option TurnId) (kind : Kind) (i : ℕ) (address : TurnAddress)
      (tree : TurnTree C)
      → IsParent no_content tree.trie address i
      → All IsValidComponent address
      → Outcome tree (allocate_at no_content uuid from kind i address tree)
  unfolding allocate_at
  allocate_at-Outcome uuid from kind i address tree p v =
      let ordinal = counter no_content tree.trie i kind in
      elim (Bool-cases (ordinal == 0)) [
        | inl e ↦ rw (allocate_at, e) (inl (refl, refl))
        | inr e ↦
            rw (allocate_at, e)
              (inr (
                refl,
                record {
                  kind = kind;
                  parent = address;
                  index = i;
                  parent_stands = p;
                  valid = v;
                  available = ground (arith, e);
                  issued = refl;
                  moves = refl;
                },
              ))
      ]

  allocate_below-Outcome :
      (uuid : Bytes) (from : TurnId) (kind : Kind) (tree : TurnTree C)
      → Outcome tree (allocate_below no_content uuid from kind tree)
  unfolding allocate_below
  allocate_below-Outcome uuid from kind tree =
      elim (Bool-cases (has_bytes no_content from.canvas_uuid uuid)) [
        | inr b ↦ rw (allocate_below, b) (inl (refl, refl))
        | inl b ↦ elim (Option-cases from.human_address) [
          | inl m ↦ rw (allocate_below, b, m) (inl (refl, refl))
          | inr (text, m) ↦ elim (Option-cases (parse text)) [
            | inl l ↦ rw (allocate_below, b, m, l) (inl (refl, refl))
            | inr (address, l) ↦ elim (Option-cases (committed no_content tree.trie address)) [
              | inl k ↦ rw (allocate_below, b, m, l, k) (inl (refl, refl))
              | inr (i, k) ↦
                  rw (allocate_below, b, m, l, k)
                    (allocate_at-Outcome uuid (some from) kind i address tree
                      (committed-IsParent tree.trie address i k)
                      (parse-IsValidAddress text address l).components)
            ]
          ]
        ]
      ]

  pub root-IsParent :
      (trie : List (TrieNode AddressComponent (TurnNode C))) → IsParent no_content trie [] 0
  unfolding find_node_from
  root-IsParent trie = record { found = refl; standing = inl refl }

  -- `allocate_child` fails and changes nothing, or it issues an address of a standing parent.
  pub allocate_child-Outcome :
      (uuid : Bytes) (from : Option TurnId) (kind : Kind) (tree : TurnTree C)
      → Outcome tree (allocate_child no_content uuid from kind tree)
  unfolding allocate_child
  allocate_child-Outcome uuid none numeric tree = elim (Bool-cases (length uuid == 16)) [
    | inr b ↦ rw (allocate_child, b) (inl (refl, refl))
    | inl b ↦
        rw (allocate_child, b)
          (allocate_at-Outcome uuid none numeric 0 [] tree (root-IsParent tree.trie) tt)
  ]
  allocate_child-Outcome uuid none alphabetic tree = inl (refl, refl)
  allocate_child-Outcome uuid (some from) kind tree = elim (Bool-cases (length uuid == 16)) [
    | inr b ↦ rw (allocate_child, b) (inl (refl, refl))
    | inl b ↦ rw (allocate_child, b) (allocate_below-Outcome uuid from kind tree)
  ]
