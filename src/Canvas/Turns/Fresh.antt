-- ===== src/Canvas/Turns/Fresh.antt =====
-- The addresses that canvas/turn/turn_tree.cpp issued or committed, and the counters behind them.
use puc.Base.{
  ℕ, ◌%◌, ◌^◌, ◌≡◌, refl, sym, ap, ap₂, subst, ◌∙◌, ◌≢◌, inl, inr, Option, some, List, [], ◌∷◌,
  ◌++◌, arith, length, All, length-append, All-map,
}
use puc.Base.Bytes.{Bytes}
use puc.Canvas.Address.{TurnAddress, AddressComponent, Kind, numeric, alphabetic, component, parse}
use puc.Canvas.Address.RoundTrip.{parse-string}
use puc.Canvas.Address.Valid.{parse-IsValidAddress}
use mathlib.Core.Option.{some-injective}
use puc.Trie.{TrieNode, insert}
use puc.Canvas.Turns.{
  Turn, TurnNode, TurnTree, component_key, no_component, empty_turn, new_node, find_turn,
  write_counter, advance_past, after_ordinal, last_component, child_of,
}
use puc.Canvas.Turns.Counters.{
  write_counter_self, counter, IsCounted, IsParent, Keeps, Keeps-IsParent, IsParent-inside,
  write_counter-Keeps, write_counter-IsCounted, insert-Keeps, insert-IsCounted,
}
use puc.Canvas.Turns.Passing.{
  IsPassed, IsPassed-Advances, after_ordinal-Advances, after_ordinal-bound, after_ordinal-IsPassed,
  advance_past-Advances, advance_past-IsPassed, advance_past-bound,
}
use puc.Canvas.Turns.Issue.{text_of, child_of-IsValidAddress, Issues}
use puc.Canvas.Turns.Hashing.{commit}
use puc.Canvas.Turns.Committing.{Commits}

-- Children of parents are told apart by parent, kind and ordinal.
snoc_inj :
    (a b : TurnAddress) (x y : AddressComponent) → a ++ (x ∷ []) ≡ b ++ (y ∷ []) → (a ≡ b) × (x ≡ y)
snoc_inj [] [] x y e = (refl, cc)
snoc_inj [] (b ∷ bs) x y e = absurd (omega (arith, ap length e, length-append bs (y ∷ [])))
snoc_inj (a ∷ as') [] x y e = absurd (omega (arith, ap length e, length-append as' (x ∷ [])))
snoc_inj (a ∷ as') (b ∷ bs) x y e =
    let head : a ≡ b = cc in
    let tail : as' ++ (x ∷ []) ≡ bs ++ (y ∷ []) = cc in
    let s = snoc_inj as' bs x y tail in (ap₂ ◌∷◌ head s.0, s.1)

child_of-append :
    (kind : Kind) (parent : TurnAddress) (n : ℕ)
    → child_of kind parent n ≡ parent ++ (component kind n ∷ [])
child_of-append numeric parent n = refl
child_of-append alphabetic parent n = refl

pub child_of-inj :
    (k l : Kind) (p q : TurnAddress) (m n : ℕ)
    → child_of k p m ≡ child_of l q n
    → (p ≡ q) × ((k ≡ l) × (m ≡ n))
child_of-inj k l p q m n e =
    let s =
      snoc_inj p q (component k m) (component l n)
        (sym (child_of-append k p m) ∙ e ∙ child_of-append l q n) in
    (s.0, (ap (λ (c : AddressComponent). c.kind) s.1, ap (λ (c : AddressComponent). c.ordinal) s.1))

module _ {C : Type 0} (no_content : C) where
  -- An address that was issued or committed: a counter of its parent has passed its ordinal.
  pub record IsTaken (trie : List (TrieNode AddressComponent (TurnNode C))) (text : Bytes)
      : Type 0 where
    pub kind : Kind
    pub parent : TurnAddress
    pub index : ℕ
    pub ordinal : ℕ
    pub parses : parse text ≡ some (child_of kind parent ordinal)
    pub stands : IsParent no_content trie parent index
    pub passed : IsPassed (counter no_content trie index kind) ordinal

  Keeps-IsTaken :
      (trie after : List (TrieNode AddressComponent (TurnNode C))) (text : Bytes)
      → ((parent : TurnAddress) (i : ℕ)
          → IsParent no_content trie parent i
          → Keeps no_content trie after parent i)
      → IsTaken trie text
      → IsTaken after text
  Keeps-IsTaken trie after text keep t =
      let k = keep t.parent t.index t.stands in
      record {
        kind = t.kind;
        parent = t.parent;
        index = t.index;
        ordinal = t.ordinal;
        parses = t.parses;
        stands = Keeps-IsParent no_content trie after t.parent t.index k t.stands;
        passed = IsPassed-Advances _ _ t.ordinal (k.counters t.kind) t.passed;
      }

  -- The trie of a history, with the addresses that are taken.
  pub record IsOrderly (trie : List (TrieNode AddressComponent (TurnNode C))) (log : List Bytes)
      : Type 0 where
    pub counted : IsCounted no_content trie
    pub taken : All (IsTaken trie) log

  Issues-parses :
      (tree after : TurnTree C) (text : Bytes)
      → IsCounted no_content tree.trie
      → (s : Issues no_content tree text after)
      → parse text ≡ some (child_of s.kind s.parent (counter no_content tree.trie s.index s.kind))
  Issues-parses tree after text h s =
      let n = counter no_content tree.trie s.index s.kind in
      ap parse s.issued
      ∙ parse-string (child_of s.kind s.parent n) (
          child_of-IsValidAddress s.kind s.parent n s.valid (omega (arith, s.available))
            (h.bounded s.index s.kind))

  -- An issued address is none of the taken ones.
  pub Issues-IsTaken :
      (tree after : TurnTree C) (text used : Bytes)
      → IsCounted no_content tree.trie
      → Issues no_content tree text after
      → IsTaken tree.trie used
      → used ≢ text
  Issues-IsTaken tree after text used h s t e =
      let n = counter no_content tree.trie s.index s.kind in
      let same =
        child_of-inj t.kind s.kind t.parent s.parent t.ordinal n
          (some-injective _ _ (sym t.parses ∙ ap parse e ∙ Issues-parses tree after text h s)) in
      let found : some t.index ≡ some s.index =
        sym t.stands.found ∙ ap (find_turn no_content tree.trie) same.0 ∙ s.parent_stands.found in
      let there : counter no_content tree.trie t.index t.kind ≡ n =
        ap₂ (counter no_content tree.trie) (some-injective _ _ found) same.1.0 in
      elim t.passed [
        | inl z ↦ s.available (sym there ∙ z)
        | inr l ↦ omega (arith, l, there, same.1.1)
      ]

  -- A change that keeps every parent keeps what is taken.
  All-IsTaken :
      (trie after : List (TrieNode AddressComponent (TurnNode C))) (log : List Bytes)
      → ((parent : TurnAddress) (i : ℕ)
          → IsParent no_content trie parent i
          → Keeps no_content trie after parent i)
      → All (IsTaken trie) log
      → All (IsTaken after) log
  All-IsTaken trie after log keep t =
      All-map (IsTaken trie) (IsTaken after) log (λ text. Keeps-IsTaken trie after text keep) t

  pub issue-IsOrderly :
      (tree after : TurnTree C) (text : Bytes) (log : List Bytes)
      → IsOrderly tree.trie log
      → Issues no_content tree text after
      → IsOrderly after.trie (text ∷ log)
  issue-IsOrderly tree after text log h s =
      let n = counter no_content tree.trie s.index s.kind in
      let inside =
        IsParent-inside no_content tree.trie s.parent s.index h.counted s.parent_stands in
      let written = write_counter no_content tree.trie s.index s.kind (after_ordinal n) in
      let keep : (parent : TurnAddress) (i : ℕ)
          → IsParent no_content tree.trie parent i
          → Keeps no_content tree.trie written parent i =
        λ parent i p.
          write_counter-Keeps no_content tree.trie s.index s.kind (after_ordinal n) parent i
            h.counted inside (after_ordinal-Advances n s.available) p in
      let k = keep s.parent s.index s.parent_stands in
      subst (λ (t : List (TrieNode AddressComponent (TurnNode C))). IsOrderly t (text ∷ log))
        (sym s.moves)
        (record {
          counted =
              write_counter-IsCounted no_content tree.trie s.index s.kind (after_ordinal n)
                h.counted inside (after_ordinal-bound n (h.counted.bounded s.index s.kind));
          taken = (
            record {
              kind = s.kind;
              parent = s.parent;
              index = s.index;
              ordinal = n;
              parses = Issues-parses tree after text h.counted s;
              stands =
                  Keeps-IsParent no_content tree.trie written s.parent s.index k s.parent_stands;
              passed =
                  subst (λ (m : ℕ). IsPassed m n)
                    (sym (
                      write_counter_self no_content tree.trie s.index s.kind (after_ordinal n)
                        inside))
                    (after_ordinal-IsPassed n);
            },
            All-IsTaken tree.trie written log keep h.taken,
          );
        })

module _ {C : Type 0} (no_content : C) (sha256 : Bytes → Bytes)
    (serialize : Turn C → Option Bytes) where
  pub commit-IsOrderly :
      (turn : Turn C) (tree after : TurnTree C) (log : List Bytes)
      → IsOrderly no_content tree.trie log
      → Commits no_content sha256 serialize turn tree after
      → IsOrderly no_content after.trie (text_of turn.id ∷ log)
  unfolding commit
  commit-IsOrderly turn tree after log h c =
      let trie = tree.trie in
      let inserted =
        (insert component_key no_component (new_node (empty_turn no_content)) trie c.address
          (new_node turn)).0 in
      let kind = (last_component c.address).kind in
      let ordinal = (last_component c.address).ordinal in
      let next = advance_past (counter no_content inserted c.index kind) (ordinal % 2 ^ 32) in
      let same : ordinal % 2 ^ 32 ≡ ordinal = omega (arith, c.fits) in
      let written = write_counter no_content inserted c.index kind next in
      let nonempty = (parse-IsValidAddress (text_of turn.id) c.address c.parses).nonempty in
      let counted = insert-IsCounted no_content trie turn c.address h.counted in
      let keep : (parent : TurnAddress) (i : ℕ)
          → IsParent no_content trie parent i
          → Keeps no_content trie inserted parent i =
        λ parent i p.
          insert-Keeps no_content trie turn c.address parent i h.counted c.absent nonempty p in
      let stands =
        Keeps-IsParent no_content trie inserted c.under.parent c.index
          (keep c.under.parent c.index c.under.parent_stands) c.under.parent_stands in
      let inside = IsParent-inside no_content inserted c.under.parent c.index counted stands in
      let again : (parent : TurnAddress) (i : ℕ)
          → IsParent no_content inserted parent i
          → Keeps no_content inserted written parent i =
        λ parent i p.
          write_counter-Keeps no_content inserted c.index kind next parent i counted inside
            (advance_past-Advances (counter no_content inserted c.index kind) (ordinal % 2 ^ 32))
            p in
      subst (λ (t : TurnTree C). IsOrderly no_content t.trie (text_of turn.id ∷ log))
        (sym c.committed_as)
        (record {
          counted =
              write_counter-IsCounted no_content inserted c.index kind next counted inside (
                advance_past-bound _ _ (counted.bounded c.index kind)
                  (omega (arith, same, c.fits)));
          taken = (
            record {
              kind = kind;
              parent = c.under.parent;
              index = c.index;
              ordinal = ordinal;
              parses = c.parses ∙ ap some (sym c.under.is_child);
              stands =
                  Keeps-IsParent no_content inserted written c.under.parent c.index
                    (again c.under.parent c.index stands) stands;
              passed =
                  subst (λ (m : ℕ). IsPassed m ordinal)
                    (sym (write_counter_self no_content inserted c.index kind next inside))
                    (subst (IsPassed next) same (
                      advance_past-IsPassed (counter no_content inserted c.index kind)
                        (ordinal % 2 ^ 32)));
            },
            All-IsTaken no_content inserted written log again
                (All-IsTaken no_content trie inserted log keep h.taken),
          );
        })
