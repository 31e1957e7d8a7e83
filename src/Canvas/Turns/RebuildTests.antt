-- ===== src/Canvas/Turns/RebuildTests.antt =====
-- Tests of a rebuild of the turn tree, with the theorems' witnesses. The digest is the text itself.
use puc.Base.{ℕ, ◌≡◌, refl, inr, true, Option, none, some, List, [], ◌∷◌, arith}
use puc.Base.Bytes.{Bytes, bytes_eq}
use puc.Canvas.Address.{
  numeric, component, parse, parse_from, parse_component, segment, from_chars, decimal_value,
  string, string_from, component_string, decimal_digits,
}
use puc.Trie.{
  insert, walk, step, find_child, find_node_from, append_child, set_value, scan, lower_bound,
  lower_bound_from,
}
use puc.Trie.Completions.{completions, collect}
use puc.Canvas.Turns.{
  TurnId, Turn, TurnTree, allocate_child, allocate_at, allocate_below, committed, identity,
  write_counter, advance_past, preserve_watermark,
}
use puc.Canvas.Turns.Counters.{counter, IsCounted}
use puc.Canvas.Turns.Passing.{IsPassed}
use puc.Canvas.Turns.Hashing.{
  apply, apply_at, parent_of, commit, rehash, path_from, hash_node, encode_children,
}
use puc.Canvas.Turns.Issue.{is_ok}
use puc.Canvas.Turns.Log.{
  Call, allocating, applying, no_turns, perform, perform_each, no_turns-IsOrderly,
  perform_each-IsOrderly,
}
use puc.Canvas.Turns.Rebuild.{
  with_addresses, ordered, apply_each, rebuild, preserve_kind, preserve_address, preserve_each,
  preserve_reservations,
}
use puc.Canvas.Turns.Preserving.{IsShared}
use puc.Canvas.Turns.Reservations.{rebuild-IsCounted, rebuild-IsPassed}

abbrev home : Bytes
home = 1 ∷ 2 ∷ 3 ∷ 4 ∷ 5 ∷ 6 ∷ 7 ∷ 8 ∷ 9 ∷ 10 ∷ 11 ∷ 12 ∷ 13 ∷ 14 ∷ 15 ∷ 16 ∷ []

abbrev one_id : TurnId
one_id = record { canvas_uuid = some home; human_address = some (b'1' ∷ []) }

abbrev one_turn : Turn ℕ
one_turn = record { id = some one_id; parent = none; content = 5 }

abbrev plain : Bytes → Bytes
plain text = text

abbrev wordless : Turn ℕ → Option Bytes
wordless turn = some []

-- The turn 1 is committed, and a reply to it is reserved.
abbrev reserving : List (Call ℕ)
reserving = applying one_turn ∷ allocating home (some one_id) numeric ∷ []

abbrev reserved : TurnTree ℕ
reserved = (perform_each 0 plain wordless reserving (no_turns 0 plain wordless)).tree

reserved-IsCounted : IsCounted 0 reserved.trie
reserved-IsCounted =
    (perform_each-IsOrderly 0 plain wordless reserving (no_turns 0 plain wordless)
      (no_turns-IsOrderly 0 plain wordless)).counted

rebuilds : is_ok (rebuild 0 plain wordless (one_turn ∷ []) reserved).0 ≡ true
unfolding bytes_eq perform_each perform allocate_child allocate_at allocate_below committed identity
    write_counter advance_past apply apply_at parent_of commit rehash path_from hash_node
    encode_children parse parse_from parse_component segment from_chars decimal_value insert walk
    step find_child find_node_from append_child set_value scan lower_bound lower_bound_from string
    string_from component_string decimal_digits rebuild with_addresses ordered apply_each
rebuilds = refl

reserves_one : IsPassed (counter 0 reserved.trie 1 numeric) 1
unfolding bytes_eq perform_each perform allocate_child allocate_at allocate_below committed identity
    write_counter advance_past apply apply_at parent_of commit rehash path_from hash_node
    encode_children parse parse_from parse_component segment from_chars decimal_value insert walk
    step find_child find_node_from append_child set_value scan lower_bound lower_bound_from string
    string_from component_string decimal_digits
reserves_one = inr (omega arith)

shares_one : IsShared 0 reserved.trie (rebuild 0 plain wordless (one_turn ∷ []) reserved).1.trie 1 1
unfolding bytes_eq perform_each perform allocate_child allocate_at allocate_below committed identity
    write_counter advance_past apply apply_at parent_of commit rehash path_from hash_node
    encode_children parse parse_from parse_component segment from_chars decimal_value insert walk
    step find_child find_node_from append_child set_value scan lower_bound lower_bound_from string
    string_from component_string decimal_digits rebuild with_addresses ordered apply_each
    preserve_reservations preserve_each preserve_address preserve_kind preserve_watermark
    completions collect
shares_one = inr (component numeric 1 ∷ [], (refl, refl))

rebuild-IsCounted_example : IsCounted 0 (rebuild 0 plain wordless (one_turn ∷ []) reserved).1.trie
rebuild-IsCounted_example =
    rebuild-IsCounted 0 plain wordless (one_turn ∷ []) reserved reserved-IsCounted

rebuild-IsPassed_example :
    IsPassed (counter 0 (rebuild 0 plain wordless (one_turn ∷ []) reserved).1.trie 1 numeric) 1
rebuild-IsPassed_example =
    rebuild-IsPassed 0 plain wordless (one_turn ∷ []) reserved 1 1 numeric 1 reserved-IsCounted
      rebuilds shares_one reserves_one
