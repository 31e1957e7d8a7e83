-- ===== src/Graph/Tests.antt =====
-- Tests of the dependency graph, with the theorems' witnesses. Nodes are numbers.
use puc.Base.{
  ℕ, ◌≡◌, refl, ◌↔◌, true, List, [], ◌∷◌, map, ◌==◌, ==_iff, lookup, contains, emplace, Eq,
}
use puc.Base.Sorting.{sort}
use puc.Graph.{
  Graph, empty, add_node, add_dependency, connect, forward_layers, validate_locked, layering,
  rounds, zeros, release, release_all, includes, nodes_at, is_ok,
}
use puc.Graph.Acyclic.{IsAcyclic, IsLayering}
use puc.Graph.Building.{IsGraph}
use puc.Graph.Validation.{
  Call, adding, depending, asking, run, call, run-IsGraph, forward_layers-IsAcyclic,
  forward_layers-IsLayering,
}

instance abbrev node_eq : Eq ℕ
node_eq = record { beq = ◌==◌; beq_iff = ==_iff }

-- The node 3 depends on 5, and 4 on 3.
abbrev chain_calls : List (Call ℕ)
chain_calls =
    adding 5 ∷ adding 3 ∷ adding 4 ∷ depending 3 4 ∷ depending 5 3 ∷ asking ∷ adding 5 ∷ []

abbrev chain : Graph ℕ
chain = run chain_calls empty

chain_layers : (forward_layers chain).1 ≡ (5 ∷ []) ∷ (3 ∷ []) ∷ (4 ∷ []) ∷ []
unfolding run call add_node add_dependency connect forward_layers validate_locked layering rounds
    zeros release release_all includes nodes_at sort lookup contains emplace
chain_layers = refl

run-IsGraph_example : IsGraph chain
run-IsGraph_example = run-IsGraph chain_calls

forward_layers-IsAcyclic_example : (is_ok (forward_layers chain).0 ≡ true) ↔ IsAcyclic chain
forward_layers-IsAcyclic_example = forward_layers-IsAcyclic chain (run-IsGraph chain_calls)

chain-is_ok : is_ok (forward_layers chain).0 ≡ true
unfolding run call add_node add_dependency connect forward_layers validate_locked layering rounds
    zeros release release_all includes nodes_at sort lookup contains emplace
chain-is_ok = refl

forward_layers-IsLayering_example :
    (indices : List (List ℕ)) × IsLayering chain indices
    × ((forward_layers chain).1 ≡ map (nodes_at chain.nodes) indices)
forward_layers-IsLayering_example =
    forward_layers-IsLayering chain (run-IsGraph chain_calls) chain-is_ok
