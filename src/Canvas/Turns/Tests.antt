-- ===== src/Canvas/Turns/Tests.antt =====
-- Tests of the turn tree, with the theorems' witnesses. The digest is the text itself.
use puc.Base.{ℕ, ◌≡◌, refl, ◌≢◌, true, Option, none, some, List, [], ◌∷◌, All}
use puc.Base.Bytes.{Bytes, bytes_eq}
use puc.Canvas.Address.{
  numeric, alphabetic, component, parse, parse_from, parse_component, segment, from_chars,
  decimal_value, string, string_from, component_string, decimal_digits,
}
use puc.Trie.{
  insert, walk, step, find_child, find_node_from, append_child, set_value, scan, lower_bound,
  lower_bound_from,
}
use puc.Canvas.Turns.{
  TurnId, Turn, TurnTree, already_exists, allocate_child, reply_to, allocate_at, allocate_below,
  committed, identity, write_counter, advance_past,
}
use puc.Canvas.Turns.Hashing.{
  apply, apply_at, parent_of, commit, rehash, path_from, hash_node, encode_children,
}
use puc.Canvas.Turns.Issue.{is_ok, text_of}
use puc.Canvas.Turns.Lookup.{IsUpdated, apply-IsUpdated}
use puc.Canvas.Turns.Log.{
  Call, allocating, applying, no_turns, perform, perform_each, no_turns-IsOrderly,
  allocate_child-IsFresh,
}

abbrev canvas : Bytes
canvas = 1 ∷ 2 ∷ 3 ∷ 4 ∷ 5 ∷ 6 ∷ 7 ∷ 8 ∷ 9 ∷ 10 ∷ 11 ∷ 12 ∷ 13 ∷ 14 ∷ 15 ∷ 16 ∷ []

abbrev first_id : TurnId
first_id = record { canvas_uuid = some canvas; human_address = some (b'1' ∷ []) }

abbrev first_turn : Turn ℕ
first_turn = record { id = some first_id; parent = none; content = 5 }

abbrev same_bytes : Bytes → Bytes
same_bytes text = text

abbrev no_payload : Turn ℕ → Option Bytes
no_payload turn = some []

abbrev before : TurnTree ℕ
before = (no_turns 0 same_bytes no_payload).tree

-- A reply to the canvas gets the address 1.
issues_one : text_of (reply_to 0 canvas none before).1.id ≡ b'1' ∷ []
unfolding allocate_child allocate_at string string_from component_string decimal_digits
issues_one = refl

abbrev calls : List (Call ℕ)
calls =
    allocating canvas none numeric
    ∷ applying first_turn
    ∷ allocating canvas (some first_id) numeric
    ∷ []

part_is_ok :
    is_ok
      (allocate_child 0 canvas
        (some first_id)
        alphabetic
        (perform_each 0 same_bytes no_payload calls (no_turns 0 same_bytes no_payload)).tree).0
    ≡ true
unfolding bytes_eq perform_each perform allocate_child allocate_at allocate_below committed identity
    write_counter advance_past apply apply_at parent_of commit rehash path_from hash_node
    encode_children parse parse_from parse_component segment from_chars decimal_value insert walk
    step find_child find_node_from append_child set_value scan lower_bound lower_bound_from string
    string_from component_string decimal_digits
part_is_ok = refl

allocate_child-IsFresh_example :
    All
      (λ used.
        used
        ≢ text_of
            (allocate_child 0 canvas
              (some first_id)
              alphabetic
              (perform_each 0 same_bytes no_payload calls
                (no_turns 0 same_bytes no_payload)).tree).1.id)
      (perform_each 0 same_bytes no_payload calls (no_turns 0 same_bytes no_payload)).log
allocate_child-IsFresh_example =
    allocate_child-IsFresh 0 same_bytes no_payload calls canvas (some first_id) alphabetic
      part_is_ok

first_is_ok : is_ok (apply 0 same_bytes no_payload first_turn before).0 ≡ true
unfolding committed identity apply apply_at parent_of parse parse_from parse_component segment
    from_chars decimal_value find_child find_node_from scan
first_is_ok = refl

first_address : parse (text_of first_turn.id) ≡ some (component numeric 1 ∷ [])
unfolding parse parse_from parse_component segment from_chars decimal_value
first_address = refl

apply-IsUpdated_example :
    IsUpdated 0 same_bytes no_payload first_turn
      (component numeric 1 ∷ [])
      before
      (apply 0 same_bytes no_payload first_turn before).1
apply-IsUpdated_example =
    apply-IsUpdated 0 same_bytes no_payload first_turn before (component numeric 1 ∷ [])
      (no_turns-IsOrderly 0 same_bytes no_payload).counted first_address first_is_ok

-- A turn is committed once.
twice :
    (apply 0 same_bytes no_payload first_turn (apply 0 same_bytes no_payload first_turn before).1).0
    ≡ already_exists
unfolding allocate_child allocate_at allocate_below committed identity write_counter advance_past
    apply apply_at parent_of commit rehash path_from hash_node encode_children parse parse_from
    parse_component segment from_chars decimal_value insert walk step find_child find_node_from
    append_child set_value scan lower_bound lower_bound_from
twice = refl
