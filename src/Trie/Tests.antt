-- ===== src/Trie/Tests.antt =====
-- Tests of the trie over numbers, and the theorems' witnesses.
use puc.Base.{
  ℕ, true, ◌≡◌, refl, ap, ◌≢◌, none, some, List, [], ◌∷◌, arith, ltb, ◌==◌, ==_iff, length, Eq,
}
use puc.Trie.{
  TrieKey, TrieNode, empty, find, find_node, node, insert, erase, walk, step, find_child,
  find_node_from, find_from, value_at, append_child, set_value, scan, lower_bound, lower_bound_from,
  key_at,
}
use puc.Trie.Completions.{completions, completions-Mem}
use mathlib.Core.List.{Memᴰ}
use puc.Trie.Stability.{SameNode, insert-SameNode}
use puc.Trie.Search.{scan_key}
use puc.Trie.Paths.{IsTrie, children_at, find_child-scan_key}
use puc.Trie.Contents.{
  empty-IsTrie, insert-IsTrie, find-insert_self, find-insert_other, IsErased, erase-IsErased,
}

abbrev number_eq : Eq ℕ
number_eq = record { beq = ◌==◌; beq_iff = ==_iff }

abbrev number_key : TrieKey ℕ
number_key = record {
  eq_key = number_eq;
  less = ltb;
  less_irrefl = λ a. ground arith;
  less_trans = λ a b c h i. ground (arith, h, i);
  less_total = λ a b h i. ground (arith, h, i);
}

abbrev one_two : List ℕ
one_two = 1 ∷ 2 ∷ []

abbrev one : List ℕ
one = 1 ∷ []

abbrev nothing : List (TrieNode ℕ ℕ)
nothing = empty number_key 0 0

abbrev sample : List (TrieNode ℕ ℕ)
sample = (insert number_key 0 0 nothing one_two 7).0

finds_seven : find number_key 0 0 sample one_two ≡ some 7
unfolding insert walk step find_child find_node_from find_from value_at append_child set_value scan
    lower_bound lower_bound_from
finds_seven = refl

misses_prefix : find number_key 0 0 sample one ≡ none
unfolding insert walk step find_child find_node_from find_from value_at append_child set_value scan
    lower_bound lower_bound_from
misses_prefix = refl

insert-IsTrie_example : IsTrie number_key 0 0 (insert number_key 0 0 nothing one_two 7).0
insert-IsTrie_example = insert-IsTrie number_key 0 0 nothing one_two 7 (empty-IsTrie number_key 0 0)

find-insert_self_example :
    find number_key 0 0 (insert number_key 0 0 nothing one_two 7).0 one_two ≡ some 7
find-insert_self_example =
    find-insert_self number_key 0 0 nothing one_two 7 (empty-IsTrie number_key 0 0)

two_keys : one ≢ one_two
two_keys = λ e. omega (arith, ap length e)

find-insert_other_example :
    find number_key 0 0 (insert number_key 0 0 sample one_two 8).0 one
    ≡ find number_key 0 0 sample one
find-insert_other_example =
    find-insert_other number_key 0 0 sample one_two one 8
      (insert-IsTrie number_key 0 0 nothing one_two 7 (empty-IsTrie number_key 0 0)) two_keys

erase-IsErased_example :
    IsErased number_key 0 0 sample one_two (erase number_key 0 0 sample one_two)
erase-IsErased_example =
    erase-IsErased number_key 0 0 sample one_two
      (insert-IsTrie number_key 0 0 nothing one_two 7 (empty-IsTrie number_key 0 0))

abbrev sample_trie : IsTrie number_key 0 0 sample
sample_trie = insert-IsTrie number_key 0 0 nothing one_two 7 (empty-IsTrie number_key 0 0)

find_child-scan_key_example :
    find_child number_key 0 0 sample 0 1
    ≡ scan_key number_key (key_at number_key 0 0 sample) 1 (children_at number_key 0 0 sample 0)
find_child-scan_key_example =
    find_child-scan_key number_key 0 0 sample sample_trie.0 0 1 sample_trie.1 sample_trie.1.nonempty

finds_one : find_node number_key 0 0 sample one ≡ some 1
unfolding insert walk step find_child find_node_from find_from value_at append_child set_value scan
    lower_bound lower_bound_from
finds_one = refl

insert-SameNode_example :
    (find_node number_key 0 0 (insert number_key 0 0 sample one_two 8).0 one ≡ some 1)
    × SameNode number_key 0 0 (insert number_key 0 0 sample one_two 8).0 sample 1
insert-SameNode_example =
    insert-SameNode number_key 0 0 sample one_two one 8 1 sample_trie two_keys finds_one

finds_end : find_node number_key 0 0 sample one_two ≡ some 2
unfolding insert walk step find_child find_node_from find_from value_at append_child set_value scan
    lower_bound lower_bound_from
finds_end = refl

ends_there : (node number_key 0 0 sample 2).sequence_end ≡ true
unfolding insert walk step find_child find_node_from find_from value_at append_child set_value scan
    lower_bound lower_bound_from
ends_there = refl

completions-Mem_example : Memᴰ one_two (completions number_key 0 0 sample [])
completions-Mem_example =
    completions-Mem number_key 0 0 sample 2 one_two sample_trie finds_end ends_there
