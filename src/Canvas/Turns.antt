-- ===== src/Canvas/Turns.antt =====
-- canvas/turn/turn_tree.cpp: the tree of turns, a trie by address components with counters for the
-- addresses of new children. A message of canvas/protos/turn.proto is its optional fields, of which
-- the code reads the two identities; the others are `content`, of any type. The canvas's bytes are a
-- list; a compare-and-exchange loop is one step, as it takes effect once.
pub mod Hashing
pub mod Passing
pub mod Counters
pub mod Issue
pub mod Committing
pub mod Fresh
pub mod Lookup
pub mod Log
pub mod Rebuild
pub mod Watermarks
pub mod Preserving
pub mod Reservations
mod Tests
mod RebuildTests
use puc.Base.{
  ℕ, zero, suc, ◌+◌, ◌-◌, ◌*◌, ◌/◌, ◌%◌, ◌^◌, ◌≤◌, ◌<◌, ◌≡◌, refl, sym, ap, ap₂, subst, ◌∙◌, ◌≢◌,
  ◌↔◌, ◌⊎◌, inl, inr, Bool, true, false, not, ◌&&◌, ◌||◌, Option, none, some, List, [], ◌∷◌, ◌++◌,
  map, reverse, append-nil, append_assoc, reverse-append, reverse-cons, arith, ltb, leb, ◌==◌,
  if◌then◌else◌, ltb→lt, lt→ltb, leb→le, ==_iff, Bool-cases, Option-cases, and-eq-true, length,
  get_elem?, get_or, set, take, drop, concat, All, length-append, length-reverse, length-set,
  get_or-set_self, get_or-set_ne, get_or-append_left, get_or-append_length, All-append, All-map,
  lookup, contains, emplace, modify, Eq, lookup-append, lookup-emplace, lookup-modify,
}
use puc.Base.Sorting.{count, sort, count-append, count-sort, length-sort}
use puc.Base.Bytes.{Bytes, bytes_eq, bytes_eq_refl, bytes_eq_iff, bytes}
use puc.Canvas.Address.{
  numeric_child, alphabetic_child, root, compare_addresses, AddressComponent, TurnAddress, Kind,
  numeric, alphabetic, kind_eq, component_eq, component, parse, string, compare_components,
}
use Prim.Native.Nat.{compare, Ordering}
use puc.Trie.{TrieKey, TrieNode, Nodes, node, find_node, find, find_child, insert, set_value}

pub record TurnId : Type 0 where
  pub canvas_uuid : Option Bytes
  pub human_address : Option Bytes

pub record Turn (C : Type 0) : Type 0 where
  pub id : Option TurnId
  pub parent : Option TurnId
  pub content : C

abbrev pub no_component : AddressComponent
no_component = component numeric 0

-- The identity that `apply` wants: the canvas and the address of the turn.
unfoldable pub identity : Option TurnId → Option (Bytes × Bytes)
identity none = none
identity (some id) = elim id.human_address [
  | none ↦ none
  | some text ↦ elim id.canvas_uuid [ none ↦ none | some uuid ↦ some (uuid, text) ]
]

-- The order and equality of components, as the trie takes them.
abbrev pub less_component : AddressComponent → AddressComponent → Bool
less_component a b = elim (compare_components a b) [ Ordering.lt ↦ true | _ ↦ false ]

pub component_eq_iff : (a b : AddressComponent) → (component_eq a b ≡ true) ↔ (a ≡ b)
component_eq_iff a b = ground arith

pub less_component_irrefl : (a : AddressComponent) → less_component a a ≡ false
unfolding compare_components
less_component_irrefl a = ground arith

pub less_component_trans :
    (a b c : AddressComponent)
    → less_component a b ≡ true
    → less_component b c ≡ true
    → less_component a c ≡ true
unfolding compare_components
less_component_trans a b c h i = ground (arith, h, i)

pub less_component_total :
    (a b : AddressComponent)
    → component_eq a b ≡ false
    → less_component a b ≡ false
    → less_component b a ≡ true
unfolding compare_components
less_component_total a b h i = ground (arith, h, i)

abbrev pub component_key : TrieKey AddressComponent
component_key = record {
  eq_key = record { beq = component_eq; beq_iff = component_eq_iff };
  less = less_component;
  less_irrefl = less_component_irrefl;
  less_trans = less_component_trans;
  less_total = less_component_total;
}

-- A node with the ordinals that its next children get; 0 is exhausted.
pub record TurnNode (C : Type 0) : Type 0 where
  pub turn : Turn C
  pub next_numeric_child : ℕ
  pub next_alphabetic_child : ℕ

pub data Status : Type 0 where
  ok invalid_turn parent_not_found already_exists address_exhausted : Status

abbrev pub u32_max : ℕ
u32_max = 2 ^ 32 - 1

-- The ordinal behind one that is taken.
abbrev pub after_ordinal : ℕ → ℕ
after_ordinal ordinal = if ordinal == u32_max then 0 else ordinal + 1

-- `advance_past`: the new value of a counter.
unfoldable pub advance_past : ℕ → ℕ → ℕ
advance_past next ordinal =
    let desired = after_ordinal ordinal in
    if not (next == 0) && (desired == 0 || ltb next desired) then desired else next

-- `preserve_watermark`: the new value of the rebuilt counter.
unfoldable pub preserve_watermark : ℕ → ℕ → ℕ
preserve_watermark current rebuilt =
    if current == 0 || rebuilt == 0 then 0 else if ltb rebuilt current then current else rebuilt

abbrev pub last_component : TurnAddress → AddressComponent
last_component [] = component numeric 0
last_component (c ∷ []) = c
last_component (c ∷ d ∷ cs) = last_component (d ∷ cs)

abbrev pub address_eq : TurnAddress → TurnAddress → Bool
address_eq [] [] = true
address_eq (a ∷ as') (b ∷ bs) = component_eq a b && address_eq as' bs
address_eq _ _ = false

abbrev pub child_of : Kind → TurnAddress → ℕ → TurnAddress
child_of numeric parent ordinal = numeric_child parent ordinal
child_of alphabetic parent ordinal = alphabetic_child parent ordinal

unfoldable pub direct_child : TurnAddress → TurnAddress → Bool
direct_child parent child =
    let last = last_component child in
    if length child == length parent + 1
    then address_eq (child_of last.kind parent last.ordinal) child
    else false

module _ {C : Type 0} where
  abbrev pub allocator : Kind → TurnNode C → ℕ
  allocator numeric n = n.next_numeric_child
  allocator alphabetic n = n.next_alphabetic_child

  abbrev pub with_allocator : Kind → ℕ → TurnNode C → TurnNode C
  with_allocator numeric next n = record n { next_numeric_child = next }
  with_allocator alphabetic next n = record n { next_alphabetic_child = next }

  abbrev pub new_node : Turn C → TurnNode C
  new_node turn = record { turn = turn; next_numeric_child = 1; next_alphabetic_child = 1 }

-- The tree, with a hash for each node of the trie.
pub record TurnTree (C : Type 0) : Type 0 where
  pub trie : List (TrieNode AddressComponent (TurnNode C))
  pub hashes : List Bytes
  pub root_hash : Bytes

module _ {C : Type 0} (no_content : C) where
  abbrev pub empty_turn : Turn C
  empty_turn = record { id = none; parent = none; content = no_content }

  abbrev pub find_turn : List (TrieNode AddressComponent (TurnNode C)) → TurnAddress → Option ℕ
  find_turn trie address = find_node component_key no_component (new_node empty_turn) trie address

  abbrev pub node_of :
      List (TrieNode AddressComponent (TurnNode C)) → ℕ → TrieNode AddressComponent (TurnNode C)
  node_of trie i = node component_key no_component (new_node empty_turn) trie i

  -- The node of a committed turn.
  unfoldable pub committed : List (TrieNode AddressComponent (TurnNode C)) → TurnAddress → Option ℕ
  committed trie address = elim (find_turn trie address) [
    | none ↦ none
    | some i ↦ if (node_of trie i).sequence_end then some i else none
  ]

  -- A write to a counter of a node.
  unfoldable pub write_counter :
      List (TrieNode AddressComponent (TurnNode C))
      → ℕ
      → Kind
      → ℕ
      → List (TrieNode AddressComponent (TurnNode C))
  write_counter trie i kind next =
      let n = node_of trie i in
      set_value component_key no_component (new_node empty_turn) trie i n.sequence_end
        (with_allocator kind next n.value)

  abbrev pub shell : Bytes → Option TurnId → TurnAddress → Turn C
  shell canvas_uuid parent address = record {
    id = some (record { canvas_uuid = some canvas_uuid; human_address = some (string address) });
    parent = parent;
    content = no_content;
  }

  -- The allocation below a node, with the address of the parent, if there is one.
  unfoldable pub allocate_at :
      Bytes → Option TurnId → Kind → ℕ → TurnAddress → TurnTree C → Status × Turn C × TurnTree C
  allocate_at canvas_uuid parent kind i address tree =
      let ordinal = allocator kind (node_of tree.trie i).value in
      if ordinal == 0 then (address_exhausted, empty_turn, tree) else (
        ok,
        shell canvas_uuid parent (child_of kind address ordinal),
        record tree { trie = write_counter tree.trie i kind (after_ordinal ordinal) },
      )

  abbrev pub has_bytes : Option Bytes → Bytes → Bool
  has_bytes none bytes = false
  has_bytes (some b) bytes = bytes_eq b bytes

  unfoldable pub allocate_below : Bytes → TurnId → Kind → TurnTree C → Status × Turn C × TurnTree C
  allocate_below canvas_uuid parent kind tree =
      if has_bytes parent.canvas_uuid canvas_uuid
      then elim parent.human_address [
        | none ↦ (invalid_turn, empty_turn, tree)
        | some text ↦ elim (parse text) [
          | none ↦ (invalid_turn, empty_turn, tree)
          | some address ↦ elim (committed tree.trie address) [
            | none ↦ (parent_not_found, empty_turn, tree)
            | some i ↦ allocate_at canvas_uuid (some parent) kind i address tree
          ]
        ]
      ]
      else (invalid_turn, empty_turn, tree)

  -- A root address is the numeric child of no component.
  unfoldable pub allocate_child :
      Bytes → Option TurnId → Kind → TurnTree C → Status × Turn C × TurnTree C
  allocate_child canvas_uuid none numeric tree =
      if length canvas_uuid == 16
      then allocate_at canvas_uuid none numeric 0 [] tree
      else (invalid_turn, empty_turn, tree)
  allocate_child canvas_uuid none alphabetic tree = (invalid_turn, empty_turn, tree)
  allocate_child canvas_uuid (some parent) kind tree =
      if length canvas_uuid == 16
      then allocate_below canvas_uuid parent kind tree
      else (invalid_turn, empty_turn, tree)

  abbrev pub reply_to : Bytes → Option TurnId → TurnTree C → Status × Turn C × TurnTree C
  reply_to canvas_uuid parent tree = allocate_child canvas_uuid parent numeric tree

  abbrev pub append_part : Bytes → TurnId → TurnTree C → Status × Turn C × TurnTree C
  append_part canvas_uuid parent tree = allocate_child canvas_uuid (some parent) alphabetic tree
