-- ===== src/Canvas/Turns/Hashing.antt =====
-- `hash_node` and `apply` of canvas/turn/turn_tree.cpp. The digest of Mbed TLS, behind
-- utils/hash/sha256.cpp, and the encoding of protobuf are parameters.
use puc.Base.{
  ℕ, zero, suc, ◌*◌, ◌/◌, ◌%◌, ◌^◌, Option, none, some, List, [], ◌∷◌, ◌++◌, ltb, ◌==◌,
  if◌then◌else◌, length, get_or, set,
}
use puc.Base.Sorting.{count}
use puc.Base.Bytes.{Bytes, bytes_eq}
use puc.Canvas.Address.{TurnAddress, AddressComponent, numeric, alphabetic, parse}
use puc.Trie.{TrieNode, find_child, insert, empty}
use puc.Canvas.Turns.{
  TurnId, Turn, TurnNode, TurnTree, Status, ok, invalid_turn, parent_not_found, already_exists,
  address_exhausted, component_key, no_component, empty_turn, new_node, node_of, committed,
  allocator, write_counter, advance_past, u32_max, last_component, direct_child, identity,
}

-- The text "PUC-TURN-TRIE-V1".
abbrev pub hash_prefix : Bytes
hash_prefix = 80 ∷ 85 ∷ 67 ∷ 45 ∷ 84 ∷ 85 ∷ 82 ∷ 78 ∷ 45 ∷ 84 ∷ 82 ∷ 73 ∷ 69 ∷ 45 ∷ 86 ∷ 49 ∷ []

abbrev zero_bytes : ℕ → Bytes
zero_bytes zero = []
zero_bytes (suc n) = 0 ∷ zero_bytes n

abbrev pub zero_hash : Bytes
zero_hash = zero_bytes 32

-- The lowest `count` bytes of a number, the highest first.
abbrev pub big_endian : ℕ → ℕ → Bytes
big_endian zero n = []
big_endian (suc count) n = (n / 2 ^ (8 * count)) % 2 ^ 8 ∷ big_endian count n

abbrev pub kind_byte : AddressComponent → ℕ
kind_byte c = elim c.kind [ numeric ↦ 0 | alphabetic ↦ 1 ]

-- `resize`, which only grows: the trie keeps its nodes.
abbrev pub resize : ℕ → List Bytes → List Bytes
resize zero hashes = hashes
resize (suc n) [] = zero_hash ∷ resize n []
resize (suc n) (h ∷ hs) = h ∷ resize n hs

-- A parent that a turn names, and the node of the trie for it.
pub data Parent : Type 0 where
  refused : Status → Parent
  accepted : ℕ → Parent

module _ {C : Type 0} (no_content : C) where
  -- A tree as it is constructed.
  abbrev pub empty_tree : TurnTree C
  empty_tree = record {
    trie = empty component_key no_component (new_node (empty_turn no_content));
    hashes = zero_hash ∷ [];
    root_hash = zero_hash;
  }

  -- The loop over the children.
  unfoldable pub encode_children :
      List (TrieNode AddressComponent (TurnNode C)) → List Bytes → List ℕ → Bytes
  encode_children trie hashes [] = []
  encode_children trie hashes (c ∷ cs) =
      let key = (node_of no_content trie c).key in
      (kind_byte key ∷ big_endian 8 key.ordinal)
      ++ (get_or hashes c zero_hash ++ encode_children trie hashes cs)

  -- The nodes below a node along an address, each behind its parent.
  unfoldable pub path_from :
      List (TrieNode AddressComponent (TurnNode C)) → ℕ → TurnAddress → List ℕ
  path_from trie i [] = i ∷ []
  path_from trie i (c ∷ cs) =
      i ∷ elim (find_child component_key no_component (new_node (empty_turn no_content)) trie i c) [
        | none ↦ []
        | some child ↦ path_from trie child cs
      ]

  -- The checks of the parent that a turn names.
  unfoldable pub parent_node :
      Bytes → TurnAddress → TurnId → List (TrieNode AddressComponent (TurnNode C)) → Parent
  parent_node uuid address parent trie = elim (identity (some parent)) [
    | none ↦ refused invalid_turn
    | some (parent_uuid, text) ↦
        if bytes_eq parent_uuid uuid
        then elim (parse text) [
          | none ↦ refused invalid_turn
          | some parent_address ↦
              if direct_child parent_address address
              then elim (committed no_content trie parent_address) [
                | none ↦ refused parent_not_found
                | some i ↦ accepted i
              ]
              else refused invalid_turn
        ]
        else refused invalid_turn
  ]

  -- A turn without a parent has one numeric component, and hangs on the root.
  unfoldable pub parent_of :
      Bytes → TurnAddress → Option TurnId → List (TrieNode AddressComponent (TurnNode C)) → Parent
  parent_of uuid address none trie = elim address [
    | [] ↦ refused invalid_turn
    | c ∷ cs ↦ elim cs [
      | [] ↦ elim c.kind [ numeric ↦ accepted 0 | alphabetic ↦ refused invalid_turn ]
      | d ∷ ds ↦ refused invalid_turn
    ]
  ]
  parent_of uuid address (some parent) trie = parent_node uuid address parent trie

module _ {C : Type 0} (no_content : C) (sha256 : Bytes → Bytes)
    (serialize : Turn C → Option Bytes) where
  unfoldable pub hash_node : List (TrieNode AddressComponent (TurnNode C)) → List Bytes → ℕ → Bytes
  hash_node trie hashes i =
      let n = node_of no_content trie i in
      let tail = encode_children no_content trie hashes n.children in
      if n.sequence_end
      then elim (serialize n.value.turn) [
        | none ↦ zero_hash
        | some payload ↦ sha256 (hash_prefix ++ (1 ∷ (payload ++ tail)))
      ]
      else sha256 (hash_prefix ++ (0 ∷ tail))

  -- The loop that hashes the nodes of a path, the last node first.
  unfoldable pub rehash :
      List (TrieNode AddressComponent (TurnNode C)) → List ℕ → List Bytes → List Bytes
  rehash trie [] hashes = hashes
  rehash trie (i ∷ is) hashes =
      let below = rehash trie is hashes in set below i (hash_node trie below i)

  -- The change that a valid turn makes below its parent's node.
  unfoldable pub commit : Turn C → TurnAddress → ℕ → TurnTree C → TurnTree C
  commit turn address parent tree =
      let inserted =
        (insert component_key no_component (new_node (empty_turn no_content)) tree.trie address
          (new_node turn)).0 in
      let child = last_component address in
      let next = allocator child.kind (node_of no_content inserted parent).value in
      let trie =
        write_counter no_content inserted parent child.kind
          (advance_past next (child.ordinal % 2 ^ 32)) in
      let hashes =
        rehash trie (path_from no_content trie 0 address) (resize (length inserted) tree.hashes) in
      record { trie = trie; hashes = hashes; root_hash = get_or hashes 0 zero_hash }

  unfoldable pub apply_at : Turn C → Bytes → TurnAddress → TurnTree C → Status × TurnTree C
  apply_at turn uuid address tree = elim (parent_of no_content uuid address turn.parent tree.trie) [
    | refused status ↦ (status, tree)
    | accepted parent ↦ elim (committed no_content tree.trie address) [
      | some i ↦ (already_exists, tree)
      | none ↦ (ok, commit turn address parent tree)
    ]
  ]

  unfoldable pub apply : Turn C → TurnTree C → Status × TurnTree C
  apply turn tree = elim (identity turn.id) [
    | none ↦ (invalid_turn, tree)
    | some (uuid, text) ↦ elim (parse text) [
      | none ↦ (invalid_turn, tree)
      | some address ↦
          if length uuid == 16
          then if ltb u32_max (last_component address).ordinal
            then (address_exhausted, tree)
            else apply_at turn uuid address tree
          else (invalid_turn, tree)
    ]
  ]
