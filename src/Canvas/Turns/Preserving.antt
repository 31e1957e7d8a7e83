-- ===== src/Canvas/Turns/Preserving.antt =====
-- What `preserve_reservations` of canvas/turn/turn_tree.cpp does to the counters of shared turns.
use puc.Base.{
  ℕ, ◌<◌, ◌≡◌, sym, ap, subst, ◌∙◌, ◌⊎◌, inl, inr, true, some, List, [], ◌∷◌, arith, Bool-cases,
  Option-cases, length,
}
use mathlib.Core.List.Memᴰ
use mathlib.Core.List.{Memᴰ}
use mathlib.Core.Option.{some-injective}
use puc.Canvas.Address.{TurnAddress, Kind, numeric, alphabetic}
use puc.Trie.Completions.{completions, completions-Mem}
use puc.Trie.Stability.{path_of}
use puc.Canvas.Turns.{component_key, no_component, empty_turn, new_node, find_turn, committed}
use puc.Canvas.Turns.Counters.{counter, is_end, IsCounted}
use puc.Canvas.Turns.Passing.{IsPassed, IsPassed-Advances}
use puc.Canvas.Turns.Issue.{committed-IsParent}
use puc.Canvas.Turns.Watermarks.{
  Nodes, Extends, Extends-trans, Extends-refl, preserve_kind-Extends, preserve_kind-IsPassed,
  length-preserve_kind, read_committed, committed-read_committed,
}
use puc.Canvas.Turns.Rebuild.{
  preserve_kind, preserve_node, preserve_address, preserve_each, preserve_reservations,
}

module _ {C : Type 0} (no_content : C) where
  module _ (current rebuilt : Nodes no_content) (i j : ℕ) (g : IsCounted no_content current)
      (h : IsCounted no_content rebuilt) (l : j < length rebuilt) where
    abbrev half : Nodes no_content
    half = preserve_kind no_content current i numeric rebuilt j

    first_half : Extends no_content rebuilt half
    first_half = preserve_kind-Extends no_content current rebuilt i j numeric g h l

    inside_half : j < length half
    inside_half = omega (arith, l, length-preserve_kind no_content current rebuilt i j numeric)

    second_half : Extends no_content half (preserve_node no_content current i rebuilt j)
    second_half =
        preserve_kind-Extends no_content current half i j alphabetic g first_half.counted
          inside_half

    preserve_node-Extends :
        Extends no_content rebuilt (preserve_node no_content current i rebuilt j)
    preserve_node-Extends = Extends-trans no_content rebuilt half _ first_half second_half

    preserve_node-IsPassed :
        (kind : Kind) (n : ℕ)
        → IsPassed (counter no_content current i kind) n
        → IsPassed (counter no_content (preserve_node no_content current i rebuilt j) j kind) n
    preserve_node-IsPassed numeric n p =
        IsPassed-Advances _ _ n (second_half.counters j numeric)
          (preserve_kind-IsPassed no_content current rebuilt i j n numeric l p)
    preserve_node-IsPassed alphabetic n p =
        preserve_kind-IsPassed no_content current half i j n alphabetic inside_half p

  committed-end :
      (trie : Nodes no_content) (a : TurnAddress) (i : ℕ)
      → committed no_content trie a ≡ some i
      → is_end no_content trie i ≡ true
  unfolding read_committed
  committed-end trie a i e = elim (Option-cases (find_turn no_content trie a)) [
    | inl m ↦ absurd (ground (arith, m, e, committed-read_committed no_content trie a))
    | inr (j, m) ↦ elim (Bool-cases (is_end no_content trie j)) [
      | inl b ↦
          let same : some j ≡ some i =
            ground (arith, m, b, e, committed-read_committed no_content trie a) in
          ap (is_end no_content trie) (sym (some-injective j i same)) ∙ b
      | inr b ↦ absurd (ground (arith, m, b, e, committed-read_committed no_content trie a))
    ]
  ]

  committed-inside :
      (trie : Nodes no_content) (a : TurnAddress) (i : ℕ)
      → IsCounted no_content trie
      → committed no_content trie a ≡ some i
      → i < length trie
  committed-inside trie a i h e =
      (path_of component_key no_component (new_node (empty_turn no_content)) trie a i h.formed
        (committed-IsParent no_content trie a i e).found).0

  preserve_address-Extends :
      (current rebuilt : Nodes no_content) (a : TurnAddress)
      → IsCounted no_content current
      → IsCounted no_content rebuilt
      → Extends no_content rebuilt (preserve_address no_content current a rebuilt)
  unfolding preserve_address
  preserve_address-Extends current rebuilt a g h =
      elim (Option-cases (committed no_content current a)) [
        | inl m ↦ rw (preserve_address, m) (Extends-refl no_content rebuilt h)
        | inr (i, m) ↦ elim (Option-cases (committed no_content rebuilt a)) [
          | inl k ↦ rw (preserve_address, m, k) (Extends-refl no_content rebuilt h)
          | inr (j, k) ↦
              rw (preserve_address, m, k)
                (preserve_node-Extends current rebuilt i j g h (committed-inside rebuilt a j h k))
        ]
      ]

  preserve_address-IsPassed :
      (current rebuilt : Nodes no_content) (a : TurnAddress) (i j : ℕ) (kind : Kind) (n : ℕ)
      → IsCounted no_content current
      → IsCounted no_content rebuilt
      → committed no_content current a ≡ some i
      → committed no_content rebuilt a ≡ some j
      → IsPassed (counter no_content current i kind) n
      → IsPassed (counter no_content (preserve_address no_content current a rebuilt) j kind) n
  unfolding preserve_address
  preserve_address-IsPassed current rebuilt a i j kind n g h m k p =
      rw (preserve_address, m, k)
        (preserve_node-IsPassed current rebuilt i j g h (committed-inside rebuilt a j h k) kind n p)

  preserve_each-Extends :
      (current rebuilt : Nodes no_content) (as' : List TurnAddress)
      → IsCounted no_content current
      → IsCounted no_content rebuilt
      → Extends no_content rebuilt (preserve_each no_content current as' rebuilt)
  unfolding preserve_each
  preserve_each-Extends current rebuilt [] g h = Extends-refl no_content rebuilt h
  preserve_each-Extends current rebuilt (a ∷ as') g h =
      let e = preserve_address-Extends current rebuilt a g h in
      Extends-trans no_content rebuilt (preserve_address no_content current a rebuilt) _ e (
        preserve_each-Extends current (preserve_address no_content current a rebuilt) as' g
          e.counted)

  preserve_each-IsPassed :
      (current rebuilt : Nodes no_content) (as' : List TurnAddress) (a : TurnAddress) (i j : ℕ)
      (kind : Kind) (n : ℕ)
      → IsCounted no_content current
      → IsCounted no_content rebuilt
      → Memᴰ a as'
      → committed no_content current a ≡ some i
      → committed no_content rebuilt a ≡ some j
      → IsPassed (counter no_content current i kind) n
      → IsPassed (counter no_content (preserve_each no_content current as' rebuilt) j kind) n
  unfolding preserve_each
  preserve_each-IsPassed current rebuilt [] a i j kind n g h m c r p = absurd (Memᴰ.not-nil m)
  preserve_each-IsPassed current rebuilt (x ∷ xs) a i j kind n g h (Memᴰ.head e) c r p =
      let next = preserve_address no_content current x rebuilt in
      let step = preserve_address-Extends current rebuilt x g h in
      IsPassed-Advances _ _ n
        ((preserve_each-Extends current next xs g step.counted).counters j kind)
        (preserve_address-IsPassed current rebuilt x i j kind n g h
          (ap (committed no_content current) (sym e) ∙ c)
          (ap (committed no_content rebuilt) (sym e) ∙ r) p)
  preserve_each-IsPassed current rebuilt (x ∷ xs) a i j kind n g h (Memᴰ.tail m) c r p =
      let next = preserve_address no_content current x rebuilt in
      let step = preserve_address-Extends current rebuilt x g h in
      preserve_each-IsPassed current next xs a i j kind n g step.counted m c (step.same a ∙ r) p

  -- The root of both, or a turn of both.
  abbrev pub IsShared : Nodes no_content → Nodes no_content → ℕ → ℕ → Type 0
  IsShared current rebuilt i j =
      ((i ≡ 0) × (j ≡ 0))
      ⊎ ((a : TurnAddress) × ((committed no_content current a ≡ some i)
            × (committed no_content rebuilt a ≡ some j)))

  module _ (current rebuilt : Nodes no_content) (g : IsCounted no_content current)
      (h : IsCounted no_content rebuilt) where
    abbrev listed : List TurnAddress
    listed = completions component_key no_component (new_node (empty_turn no_content)) current []

    rooted : Extends no_content rebuilt (preserve_node no_content current 0 rebuilt 0)
    rooted = preserve_node-Extends current rebuilt 0 0 g h h.formed.1.nonempty

    pub preserve_reservations-Extends :
        Extends no_content rebuilt (preserve_reservations no_content current rebuilt)
    unfolding preserve_reservations
    preserve_reservations-Extends =
        Extends-trans no_content rebuilt (preserve_node no_content current 0 rebuilt 0) _ rooted (
          preserve_each-Extends current (preserve_node no_content current 0 rebuilt 0) listed g
            rooted.counted)

    is_listed : (a : TurnAddress) (i : ℕ) → committed no_content current a ≡ some i → Memᴰ a listed
    is_listed a i e =
        completions-Mem component_key no_component (new_node (empty_turn no_content)) current i a
          g.formed (committed-IsParent no_content current a i e).found (committed-end current a i e)

    pub preserve_reservations-IsPassed :
        (i j : ℕ) (kind : Kind) (n : ℕ)
        → IsShared current rebuilt i j
        → IsPassed (counter no_content current i kind) n
        → IsPassed (counter no_content (preserve_reservations no_content current rebuilt) j kind) n
    unfolding preserve_reservations
    preserve_reservations-IsPassed i j kind n (inr (a, (c, r))) p =
        preserve_each-IsPassed current (preserve_node no_content current 0 rebuilt 0) listed a i j
          kind n g rooted.counted (is_listed a i c) c (rooted.same a ∙ r) p
    preserve_reservations-IsPassed i j kind n (inl (e, f)) p =
        subst
          (λ (m : ℕ).
            IsPassed (counter no_content (preserve_reservations no_content current rebuilt) m kind)
              n)
          (sym f)
          (IsPassed-Advances _ _ n
            ((preserve_each-Extends current (preserve_node no_content current 0 rebuilt 0) listed g
                rooted.counted).counters
              0 kind)
            (preserve_node-IsPassed current rebuilt 0 0 g h h.formed.1.nonempty kind n
              (subst (λ (m : ℕ). IsPassed (counter no_content current m kind) n) e p)))
