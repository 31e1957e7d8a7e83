-- ===== src/Canvas/Turns/Log.antt =====
-- Histories of canvas/turn/turn_tree.cpp: through any calls of `reply_to`, `append_part` and
-- `apply`, no address is issued that was issued or committed before.
use puc.Base.{
  ℕ, zero, suc, ◌≤◌, ◌≡◌, sym, subst, ◌≢◌, inl, inr, true, Option, List, [], ◌∷◌, arith,
  if◌then◌else◌, All, All-map,
}
use puc.Base.Bytes.{Bytes}
use puc.Canvas.Address.{Kind, numeric, alphabetic}
use puc.Trie.Contents.{empty-IsTrie}
use puc.Canvas.Turns.{
  TurnId, Turn, TurnTree, Status, component_key, no_component, empty_turn, new_node, u32_max,
  allocate_child,
}
use puc.Canvas.Turns.Counters.{counter}
use puc.Canvas.Turns.Issue.{is_ok, text_of, allocate_child-Outcome}
use puc.Canvas.Turns.Hashing.{empty_tree, apply}
use puc.Canvas.Turns.Committing.{apply-Outcome}
use puc.Canvas.Turns.Fresh.{IsTaken, IsOrderly, Issues-IsTaken, issue-IsOrderly, commit-IsOrderly}

-- A call of the tree's owner.
pub data Call (C : Type 0) : Type 0 where
  allocating : Bytes → Option TurnId → Kind → Call C
  applying : Turn C → Call C

-- The tree, with the addresses issued and committed so far, the last one first.
pub record History (C : Type 0) : Type 0 where
  pub tree : TurnTree C
  pub log : List Bytes

module _ {C : Type 0} (no_content : C) (sha256 : Bytes → Bytes)
    (serialize : Turn C → Option Bytes) where
  abbrev pub no_turns : History C
  no_turns = record { tree = empty_tree no_content; log = [] }

  abbrev logged : Status → Bytes → TurnTree C → List Bytes → History C
  logged status text tree log =
      if is_ok status
      then record { tree = tree; log = text ∷ log }
      else record { tree = tree; log = log }

  unfoldable pub perform : Call C → History C → History C
  perform (allocating uuid parent kind) h =
      let r = allocate_child no_content uuid parent kind h.tree in
      logged r.0 (text_of r.1.id) r.2 h.log
  perform (applying turn) h =
      let r = apply no_content sha256 serialize turn h.tree in
      logged r.0 (text_of turn.id) r.1 h.log

  -- The calls from the first one to the last one.
  unfoldable pub perform_each : List (Call C) → History C → History C
  perform_each [] h = h
  perform_each (c ∷ cs) h = perform_each cs (perform c h)

  first_counter : (i : ℕ) (kind : Kind) → counter no_content no_turns.tree.trie i kind ≤ u32_max
  first_counter zero numeric = omega arith
  first_counter zero alphabetic = omega arith
  first_counter (suc i) numeric = omega arith
  first_counter (suc i) alphabetic = omega arith

  pub no_turns-IsOrderly : IsOrderly no_content no_turns.tree.trie []
  no_turns-IsOrderly = record {
    counted = record {
      formed = empty-IsTrie component_key no_component (new_node (empty_turn no_content));
      bounded = first_counter;
    };
    taken = tt;
  }

  perform-IsOrderly :
      (call : Call C) (h : History C)
      → IsOrderly no_content h.tree.trie h.log
      → IsOrderly no_content (perform call h).tree.trie (perform call h).log
  unfolding perform
  perform-IsOrderly (allocating uuid parent kind) h o =
      elim (allocate_child-Outcome no_content uuid parent kind h.tree) [
        | inl (e, same) ↦
            rw (perform, e)
              (subst (λ (t : TurnTree C). IsOrderly no_content t.trie h.log) (sym same) o)
        | inr (e, s) ↦ rw (perform, e) (issue-IsOrderly no_content h.tree _ _ h.log o s)
      ]
  perform-IsOrderly (applying turn) h o =
      elim (apply-Outcome no_content sha256 serialize turn h.tree) [
        | inl (e, same) ↦
            rw (perform, e)
              (subst (λ (t : TurnTree C). IsOrderly no_content t.trie h.log) (sym same) o)
        | inr (e, c) ↦
            rw (perform, e) (commit-IsOrderly no_content sha256 serialize turn h.tree _ h.log o c)
      ]

  pub perform_each-IsOrderly :
      (calls : List (Call C)) (h : History C)
      → IsOrderly no_content h.tree.trie h.log
      → IsOrderly no_content (perform_each calls h).tree.trie (perform_each calls h).log
  unfolding perform_each
  perform_each-IsOrderly [] h o = o
  perform_each-IsOrderly (c ∷ cs) h o =
      perform_each-IsOrderly cs (perform c h) (perform-IsOrderly c h o)

  -- After any calls of `reply_to`, `append_part` and `apply` on a new tree, an address that is issued
  -- is none of those that were issued or committed before.
  pub allocate_child-IsFresh :
      (calls : List (Call C)) (uuid : Bytes) (parent : Option TurnId) (kind : Kind)
      → let h = perform_each calls no_turns in
        let r = allocate_child no_content uuid parent kind h.tree in
        is_ok r.0 ≡ true → All (λ used. used ≢ text_of r.1.id) h.log
  allocate_child-IsFresh calls uuid parent kind e =
      let h = perform_each calls no_turns in
      let o = perform_each-IsOrderly calls no_turns no_turns-IsOrderly in
      elim (allocate_child-Outcome no_content uuid parent kind h.tree) [
        | inl (f, same) ↦ absurd (ground (arith, e, f))
        | inr (f, s) ↦
            All-map (IsTaken no_content h.tree.trie) _ h.log
              (λ used. Issues-IsTaken no_content h.tree _ _ used o.counted s) o.taken
      ]
