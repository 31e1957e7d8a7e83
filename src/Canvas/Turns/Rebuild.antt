-- ===== src/Canvas/Turns/Rebuild.antt =====
-- `rebuild` and `preserve_reservations` of canvas/turn/turn_tree.cpp. `std::sort` is an insertion
-- sort. The order in which `std::sort` leaves turns with equal addresses is unspecified, so the
-- status of a rebuild that fails on them may be another; whether it succeeds does not depend on it.
use puc.Base.{ℕ, Bool, true, false, Option, none, some, List, [], ◌∷◌, if◌then◌else◌}
use puc.Base.Bytes.{Bytes}
use Prim.Native.Nat.{Ordering}
use puc.Canvas.Address.{
  TurnAddress, AddressComponent, Kind, numeric, alphabetic, parse, compare_addresses,
}
use puc.Trie.{TrieNode}
use puc.Trie.Completions.{completions}
use puc.Canvas.Turns.{
  Turn, TurnNode, TurnTree, Status, ok, invalid_turn, component_key, no_component, empty_turn,
  new_node, committed, write_counter, preserve_watermark,
}
use puc.Canvas.Turns.Counters.{counter}
use puc.Canvas.Turns.Issue.{is_ok, text_of}
use puc.Canvas.Turns.Hashing.{apply, empty_tree}

abbrev pub before : TurnAddress → TurnAddress → Bool
before a b = elim (compare_addresses a b) [ Ordering.lt ↦ true | _ ↦ false ]

module _ {C : Type 0} where
  -- The first loop: each turn with its address, or none when a turn has no valid address.
  unfoldable pub with_addresses : List (Turn C) → Option (List (TurnAddress × Turn C))
  with_addresses [] = some []
  with_addresses (t ∷ ts) =
      let rest = with_addresses ts in
      elim (parse (text_of t.id)) [
        | none ↦ none
        | some address ↦ elim rest [ none ↦ none | some others ↦ some ((address, t) ∷ others) ]
      ]

  unfoldable pub put_in_order :
      TurnAddress × Turn C → List (TurnAddress × Turn C) → List (TurnAddress × Turn C)
  put_in_order t [] = t ∷ []
  put_in_order t (u ∷ us) = if before u.0 t.0 then u ∷ put_in_order t us else t ∷ u ∷ us

  unfoldable pub ordered : List (TurnAddress × Turn C) → List (TurnAddress × Turn C)
  unfolding put_in_order
  ordered [] = []
  ordered (t ∷ ts) = put_in_order t (ordered ts)

module _ {C : Type 0} (no_content : C) where
  abbrev pub Trie : Type 0
  Trie = List (TrieNode AddressComponent (TurnNode C))

  unfoldable pub preserve_kind : Trie → ℕ → Kind → Trie → ℕ → Trie
  preserve_kind current i kind rebuilt j =
      write_counter no_content rebuilt j kind
        (preserve_watermark (counter no_content current i kind) (counter no_content rebuilt j kind))

  -- `preserve_node`, for the nodes at two indexes.
  abbrev pub preserve_node : Trie → ℕ → Trie → ℕ → Trie
  preserve_node current i rebuilt j =
      preserve_kind current i alphabetic (preserve_kind current i numeric rebuilt j) j

  -- One round of the loop.
  unfoldable pub preserve_address : Trie → TurnAddress → Trie → Trie
  preserve_address current address rebuilt = elim (committed no_content current address) [
    | none ↦ rebuilt
    | some i ↦ elim (committed no_content rebuilt address) [
      | none ↦ rebuilt
      | some j ↦ preserve_node current i rebuilt j
    ]
  ]

  unfoldable pub preserve_each : Trie → List TurnAddress → Trie → Trie
  preserve_each current [] rebuilt = rebuilt
  preserve_each current (a ∷ as') rebuilt =
      preserve_each current as' (preserve_address current a rebuilt)

  unfoldable pub preserve_reservations : Trie → Trie → Trie
  preserve_reservations current rebuilt =
      preserve_each current
        (completions component_key no_component (new_node (empty_turn no_content)) current [])
        (preserve_node current 0 rebuilt 0)

module _ {C : Type 0} (no_content : C) (sha256 : Bytes → Bytes)
    (serialize : Turn C → Option Bytes) where
  -- The loop over the ordered turns; the first failure ends it.
  unfoldable pub apply_each : List (TurnAddress × Turn C) → TurnTree C → Status × TurnTree C
  apply_each [] tree = (ok, tree)
  apply_each (t ∷ ts) tree =
      let r = apply no_content sha256 serialize t.1 tree in
      let rest = apply_each ts r.1 in if is_ok r.0 then rest else r

  unfoldable pub rebuild : List (Turn C) → TurnTree C → Status × TurnTree C
  rebuild turns tree = elim (with_addresses turns) [
    | none ↦ (invalid_turn, tree)
    | some addressed ↦
        let r = apply_each (ordered addressed) (empty_tree no_content) in
        if is_ok r.0
        then (ok, record r.1 { trie = preserve_reservations no_content tree.trie r.1.trie })
        else (r.0, tree)
  ]
