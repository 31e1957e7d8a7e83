-- ===== src/Canvas/Turns/Watermarks.antt =====
-- The watermarks that `preserve_reservations` of canvas/turn/turn_tree.cpp writes.
use puc.Base.{
  ℕ, ◌≤◌, ◌<◌, ◌≡◌, refl, sym, ap, subst, ◌∙◌, inl, inr, Bool, Option, none, some, List, arith,
  if◌then◌else◌, Option-cases, length, length-set,
}
use puc.Canvas.Address.{TurnAddress, AddressComponent, Kind}
use puc.Trie.{TrieNode, set_value}
use puc.Trie.Stability.{set_value-find}
use puc.Canvas.Turns.{
  TurnNode, component_key, no_component, empty_turn, new_node, find_turn, committed, write_counter,
  preserve_watermark, u32_max,
}
use puc.Canvas.Turns.Counters.{
  counter, is_end, IsCounted, write_counter-counter, write_counter_self, write_counter-end,
  write_counter-IsCounted,
}
use puc.Canvas.Turns.Passing.{IsPassed, Advances}
use puc.Canvas.Turns.Rebuild.{preserve_kind}

preserve_watermark-IsPassed :
    (current rebuilt n : ℕ) → IsPassed current n → IsPassed (preserve_watermark current rebuilt) n
unfolding preserve_watermark
preserve_watermark-IsPassed current rebuilt n p = ground (arith, p)

preserve_watermark-Advances :
    (current rebuilt : ℕ) → Advances rebuilt (preserve_watermark current rebuilt)
unfolding preserve_watermark
preserve_watermark-Advances current rebuilt = ground arith

preserve_watermark-bound :
    (current rebuilt : ℕ)
    → current ≤ u32_max
    → rebuilt ≤ u32_max
    → preserve_watermark current rebuilt ≤ u32_max
unfolding preserve_watermark
preserve_watermark-bound current rebuilt h l = ground (arith, h, l)

Advances-trans : (a b c : ℕ) → Advances a b → Advances b c → Advances a c
Advances-trans a b c (inl e) q = ground (arith, e, q)
Advances-trans a b c (inr (inl e)) (inl f) = inr (inl (f ∙ e))
Advances-trans a b c (inr (inl e)) (inr (inl f)) = inr (inl f)
Advances-trans a b c (inr (inl e)) (inr (inr (n, l))) = absurd (n e)
Advances-trans a b c (inr (inr (n, l))) (inl f) = inr (inr (n, omega (arith, f, l)))
Advances-trans a b c (inr (inr (n, l))) (inr (inl f)) = inr (inl f)
Advances-trans a b c (inr (inr (n, l))) (inr (inr (m, k))) = inr (inr (n, omega (arith, k, l)))

module _ {C : Type 0} (no_content : C) where
  abbrev pub Nodes : Type 0
  Nodes = List (TrieNode AddressComponent (TurnNode C))

  -- The same turns, with counters that moved on.
  pub record Extends (trie after : Nodes) : Type 0 where
    pub counted : IsCounted no_content after
    pub same : (a : TurnAddress) → committed no_content after a ≡ committed no_content trie a
    pub counters :
        (i : ℕ) (kind : Kind)
        → Advances (counter no_content trie i kind) (counter no_content after i kind)

  pub Extends-trans : (a b c : Nodes) → Extends a b → Extends b c → Extends a c
  Extends-trans a b c e f = record {
    counted = f.counted;
    same = λ p. f.same p ∙ e.same p;
    counters = λ i kind. Advances-trans _ _ _ (e.counters i kind) (f.counters i kind);
  }

  pub Extends-refl : (a : Nodes) → IsCounted no_content a → Extends a a
  Extends-refl a h = record { counted = h; same = λ p. refl; counters = λ i kind. inl refl }

  unfoldable pub read_committed : Nodes → Option ℕ → Option ℕ
  read_committed trie none = none
  read_committed trie (some i) = if is_end no_content trie i then some i else none

  pub committed-read_committed :
      (trie : Nodes) (a : TurnAddress)
      → committed no_content trie a ≡ read_committed trie (find_turn no_content trie a)
  unfolding committed read_committed
  committed-read_committed trie a = elim (Option-cases (find_turn no_content trie a)) [
    | inl m ↦ rw (committed, read_committed, m) refl
    | inr (i, m) ↦ rw (committed, read_committed, m) refl
  ]

  write_counter-read_committed :
      (trie : Nodes) (i : ℕ) (kind : Kind) (next : ℕ) (m : Option ℕ)
      → i < length trie
      → read_committed (write_counter no_content trie i kind next) m ≡ read_committed trie m
  unfolding read_committed
  write_counter-read_committed trie i kind next none l = refl
  write_counter-read_committed trie i kind next (some j) l =
      ap (λ (b : Bool). if b then some j else none)
        (write_counter-end no_content trie i j kind next l)

  write_counter-committed :
      (trie : Nodes) (i : ℕ) (kind : Kind) (next : ℕ) (a : TurnAddress)
      → IsCounted no_content trie
      → i < length trie
      → committed no_content (write_counter no_content trie i kind next) a
        ≡ committed no_content trie a
  unfolding write_counter
  write_counter-committed trie i kind next a h l =
      committed-read_committed (write_counter no_content trie i kind next) a
      ∙ ap (read_committed (write_counter no_content trie i kind next)) (
          set_value-find component_key no_component (new_node (empty_turn no_content)) trie i _ _ a
            h.formed l)
      ∙ write_counter-read_committed trie i kind next (find_turn no_content trie a) l
      ∙ sym (committed-read_committed trie a)

  pub preserve_kind-Extends :
      (current rebuilt : Nodes) (i j : ℕ) (kind : Kind)
      → IsCounted no_content current
      → IsCounted no_content rebuilt
      → j < length rebuilt
      → Extends rebuilt (preserve_kind no_content current i kind rebuilt j)
  unfolding preserve_kind
  preserve_kind-Extends current rebuilt i j kind g h l =
      let next =
        preserve_watermark (counter no_content current i kind)
          (counter no_content rebuilt j kind) in
      record {
        counted =
            write_counter-IsCounted no_content rebuilt j kind next h l
              (preserve_watermark-bound _ _ (g.bounded i kind) (h.bounded j kind));
        same = λ a. write_counter-committed rebuilt j kind next a h l;
        counters = λ t other.
            elim (write_counter-counter no_content rebuilt j t kind other next l) [
              | inl e ↦ inl e
              | inr (same, (k, e)) ↦ subst (Advances (counter no_content rebuilt t other)) (sym e) (
                  subst (λ (m : ℕ). Advances (counter no_content rebuilt m other) next) same
                    (subst (λ (o : Kind). Advances (counter no_content rebuilt j o) next) k
                      (preserve_watermark-Advances (counter no_content current i kind)
                        (counter no_content rebuilt j kind))))
            ];
      }

  pub preserve_kind-IsPassed :
      (current rebuilt : Nodes) (i j n : ℕ) (kind : Kind)
      → j < length rebuilt
      → IsPassed (counter no_content current i kind) n
      → IsPassed (counter no_content (preserve_kind no_content current i kind rebuilt j) j kind) n
  unfolding preserve_kind
  preserve_kind-IsPassed current rebuilt i j n kind l p =
      subst (λ (m : ℕ). IsPassed m n) (sym (write_counter_self no_content rebuilt j kind _ l))
        (preserve_watermark-IsPassed (counter no_content current i kind)
          (counter no_content rebuilt j kind) n p)

  pub length-preserve_kind :
      (current rebuilt : Nodes) (i j : ℕ) (kind : Kind)
      → length (preserve_kind no_content current i kind rebuilt j) ≡ length rebuilt
  unfolding preserve_kind write_counter set_value
  length-preserve_kind current rebuilt i j kind = length-set rebuilt j _
