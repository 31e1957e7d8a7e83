-- ===== src/Canvas/Turns/Reservations.antt =====
-- A rebuild of canvas/turn/turn_tree.cpp passes no ordinal on again.
use puc.Base.{
  ℕ, ◌≡◌, refl, sym, subst, ◌∙◌, ◌⊎◌, inl, inr, true, false, Option, List, [], ◌∷◌, arith,
  Bool-cases, Option-cases,
}
use puc.Base.Bytes.{Bytes}
use puc.Canvas.Address.{TurnAddress, AddressComponent, Kind}
use puc.Trie.{TrieNode}
use puc.Canvas.Turns.{Turn, TurnNode, TurnTree, Status}
use puc.Canvas.Turns.Counters.{counter, IsCounted}
use puc.Canvas.Turns.Passing.{IsPassed}
use puc.Canvas.Turns.Issue.{is_ok}
use puc.Canvas.Turns.Fresh.{commit-IsOrderly}
use puc.Canvas.Turns.Hashing.{apply, empty_tree}
use puc.Canvas.Turns.Committing.{apply-Outcome}
use puc.Canvas.Turns.Log.{no_turns-IsOrderly}
use puc.Canvas.Turns.Preserving.{
  IsShared, preserve_reservations-Extends, preserve_reservations-IsPassed,
}
use puc.Canvas.Turns.Rebuild.{preserve_reservations, apply_each, rebuild, ordered, with_addresses}

module _ {C : Type 0} (no_content : C) (sha256 : Bytes → Bytes)
    (serialize : Turn C → Option Bytes) where
  apply-IsCounted :
      (turn : Turn C) (tree : TurnTree C)
      → IsCounted no_content tree.trie
      → IsCounted no_content (apply no_content sha256 serialize turn tree).1.trie
  apply-IsCounted turn tree h = elim (apply-Outcome no_content sha256 serialize turn tree) [
    | inl (f, same) ↦ subst (λ (t : TurnTree C). IsCounted no_content t.trie) (sym same) h
    | inr (f, c) ↦
        (commit-IsOrderly no_content sha256 serialize turn tree _ []
          (record { counted = h; taken = tt }) c).counted
  ]

  apply_each-IsCounted :
      (ts : List (TurnAddress × Turn C)) (tree : TurnTree C)
      → IsCounted no_content tree.trie
      → IsCounted no_content (apply_each no_content sha256 serialize ts tree).1.trie
  unfolding apply_each
  apply_each-IsCounted [] tree h = h
  apply_each-IsCounted (t ∷ ts) tree h =
      let r = apply no_content sha256 serialize t.1 tree in
      let kept = apply-IsCounted t.1 tree h in
      elim (Bool-cases (is_ok r.0)) [
        | inl e ↦ rw (apply_each, e) (apply_each-IsCounted ts r.1 kept)
        | inr e ↦ rw (apply_each, e) kept
      ]

  -- A rebuild fails and changes nothing, or gives a new trie the watermarks of the old one.
  abbrev Outcome : TurnTree C → Status × TurnTree C → Type 0
  Outcome tree r =
      ((is_ok r.0 ≡ false) × (r.1 ≡ tree))
      ⊎ ((rebuilt : List (TrieNode AddressComponent (TurnNode C))) × (IsCounted no_content rebuilt
            × (r.1.trie ≡ preserve_reservations no_content tree.trie rebuilt)))

  rebuild-Outcome :
      (turns : List (Turn C)) (tree : TurnTree C)
      → Outcome tree (rebuild no_content sha256 serialize turns tree)
  unfolding rebuild
  rebuild-Outcome turns tree = elim (Option-cases (with_addresses turns)) [
    | inl m ↦ rw (rebuild, m) (inl (refl, refl))
    | inr (ts, m) ↦
        let r = apply_each no_content sha256 serialize (ordered ts) (empty_tree no_content) in
        elim (Bool-cases (is_ok r.0)) [
          | inr b ↦ rw (rebuild, m, b) (inl (b, refl))
          | inl b ↦
              rw (rebuild, m, b)
                (inr (
                  r.1.trie,
                  (
                    apply_each-IsCounted (ordered ts) (empty_tree no_content)
                        (no_turns-IsOrderly no_content sha256 serialize).counted,
                    refl,
                  ),
                ))
        ]
  ]

  -- A rebuild, whatever its answer, keeps a tree well-formed, with counters of 32 bits.
  pub rebuild-IsCounted :
      (turns : List (Turn C)) (tree : TurnTree C)
      → IsCounted no_content tree.trie
      → IsCounted no_content (rebuild no_content sha256 serialize turns tree).1.trie
  rebuild-IsCounted turns tree h = elim (rebuild-Outcome turns tree) [
    | inl (f, same) ↦ subst (λ (t : TurnTree C). IsCounted no_content t.trie) (sym same) h
    | inr (rebuilt, (g, e)) ↦
        subst (IsCounted no_content) (sym e)
          (preserve_reservations-Extends no_content tree.trie rebuilt h g).counted
  ]

  -- After a successful rebuild of a well-formed tree, the root and every turn of both trees have
  -- counters that passed every ordinal that they passed before.
  pub rebuild-IsPassed :
      (turns : List (Turn C)) (tree : TurnTree C) (i j : ℕ) (kind : Kind) (n : ℕ)
      → IsCounted no_content tree.trie
      → is_ok (rebuild no_content sha256 serialize turns tree).0 ≡ true
      → IsShared no_content tree.trie (rebuild no_content sha256 serialize turns tree).1.trie i j
      → IsPassed (counter no_content tree.trie i kind) n
      → IsPassed
          (counter no_content (rebuild no_content sha256 serialize turns tree).1.trie j kind)
          n
  rebuild-IsPassed turns tree i j kind n h e s p = elim (rebuild-Outcome turns tree) [
    | inl (f, same) ↦ absurd (ground (arith, e, f))
    | inr (rebuilt, (g, q)) ↦
        let extends = preserve_reservations-Extends no_content tree.trie rebuilt h g in
        let shared : IsShared no_content tree.trie
            (preserve_reservations no_content tree.trie rebuilt) i j =
          subst
            (λ (t : List (TrieNode AddressComponent (TurnNode C))).
              IsShared no_content tree.trie t i j)
            q s in
        subst
          (λ (t : List (TrieNode AddressComponent (TurnNode C))).
            IsPassed (counter no_content t j kind) n)
          (sym q)
          (preserve_reservations-IsPassed no_content tree.trie rebuilt h g i j kind n
            (elim shared [
              | inl roots ↦ inl roots
              | inr (a, (c, r)) ↦ inr (a, (c, sym (extends.same a) ∙ r))
            ])
            p)
  ]
