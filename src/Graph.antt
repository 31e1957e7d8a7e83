-- ===== src/Graph.antt =====
-- utils/execution_graph/dependency_graph.hpp: registration of nodes and edges, and the layers that
-- the validation computes. The mutex is left out: each operation holds it from start to end.
-- `++` on the counters is not wrapped: they count elements that are held in memory.
pub mod Cache
pub mod Weight
pub mod Release
pub mod Layering
pub mod Acyclic
pub mod Building
pub mod Validation
mod Tests
use puc.Base.{
  ℕ, zero, suc, ◌+◌, ◌-◌, ◌^◌, Bool, true, false, List, [], ◌∷◌, ◌++◌, map, reverse, none, some, Eq,
  lookup, contains, emplace, length, get_elem?, get_or, set, ◌==◌, ◌||◌, if◌then◌else◌,
}
use puc.Base.Sorting.{sort}

pub data Status : Type 0 where
  ok invalid_argument duplicate_node node_not_found duplicate_dependency : Status
  dependency_cycle execution_in_progress worker_submission_failed : Status

abbrev pub is_ok : Status → Bool
is_ok ok = true
is_ok _ = false

pub record Graph (N : Type 0) : Type 0 where
  pub nodes : List N
  pub node_indices : List (N × ℕ)
  pub dependents : List (List ℕ)
  pub dependency_counts : List ℕ
  pub edge_count : ℕ
  pub topology_valid : Bool
  pub forward_layer_indices : List (List ℕ)

pub record Snapshot (N : Type 0) : Type 0 where
  pub nodes : List N
  pub dependents : List (List ℕ)
  pub dependency_counts : List ℕ

-- `std::find` on a list of indexes.
unfoldable pub includes : ℕ → List ℕ → Bool
includes v [] = false
includes v (x ∷ xs) = x == v || includes v xs

-- `--count` on a `std::size_t`.
abbrev pub pred_size : ℕ → ℕ
pred_size c = if c == 0 then 2 ^ 64 - 1 else c - 1

-- The indexes from `i`, `n` of them, whose counter is zero.
unfoldable pub zeros : ℕ → ℕ → List ℕ → List ℕ
zeros zero i counts = []
zeros (suc n) i counts =
    let rest = zeros n (i + 1) counts in if get_or counts i 0 == 0 then i ∷ rest else rest

-- The inner loop over the dependents of one node: the counters and the nodes that became ready.
unfoldable pub release : List ℕ → List ℕ → List ℕ → List ℕ × List ℕ
release [] remaining next = (remaining, next)
release (d ∷ ds) remaining next =
    let c = pred_size (get_or remaining d 0) in
    release ds (set remaining d c) (if c == 0 then next ++ (d ∷ []) else next)

unfoldable pub release_all : List (List ℕ) → List ℕ → List ℕ → List ℕ → List ℕ × List ℕ
unfolding release
release_all dependents [] remaining next = (remaining, next)
release_all dependents (u ∷ us) remaining next =
    let r = release (get_or dependents u []) remaining next in release_all dependents us r.0 r.1

-- The `while (!ready.empty())` loop: the layers, and the number of visited nodes.
unfoldable pub rounds : List (List ℕ) → ℕ → List ℕ → List ℕ → List (List ℕ) → ℕ → List (List ℕ) × ℕ
unfolding sort release_all
rounds dependents zero ready remaining layers visited = (layers, visited)
rounds dependents (suc fuel) [] remaining layers visited = (layers, visited)
rounds dependents (suc fuel) (r ∷ rs) remaining layers visited =
    let ready = sort (r ∷ rs) in
    let s = release_all dependents ready remaining [] in
    rounds dependents fuel s.1 s.0 (layers ++ (ready ∷ [])) (visited + length ready)

unfoldable pub layering : {N : Type 0} → Graph N → List (List ℕ) × ℕ
unfolding rounds zeros
layering g =
    let n = length g.nodes in
    rounds g.dependents (suc n) (zeros n 0 g.dependency_counts) g.dependency_counts [] 0

abbrev pub empty : {N : Type 0} → Graph N
empty = record {
  nodes = [];
  node_indices = [];
  dependents = [];
  dependency_counts = [];
  edge_count = 0;
  topology_valid = false;
  forward_layer_indices = [];
}

unfoldable pub validate_locked : {N : Type 0} → Graph N → Status × Graph N
unfolding layering
validate_locked g =
    if g.topology_valid
    then (ok, g)
    else if (layering g).1 == length g.nodes
    then (ok, record g { forward_layer_indices = (layering g).0; topology_valid = true })
    else (dependency_cycle, record g { forward_layer_indices = [] })

-- The nodes of one layer; an index out of range has no node.
unfoldable pub nodes_at : {N : Type 0} → List N → List ℕ → List N
nodes_at nodes [] = []
nodes_at nodes (i ∷ is) = elim (get_elem? nodes i) [
  | none ↦ nodes_at nodes is
  | some n ↦ n ∷ nodes_at nodes is
]

-- Each query that validates returns the graph with its cache.
unfoldable pub forward_layers : {N : Type 0} → Graph N → Status × List (List N) × Graph N
unfolding validate_locked nodes_at
forward_layers g =
    let v = validate_locked g in
    if is_ok v.0
    then (ok, map (nodes_at v.1.nodes) v.1.forward_layer_indices, v.1)
    else (v.0, [], v.1)

unfoldable pub reverse_layers : {N : Type 0} → Graph N → Status × List (List N) × Graph N
unfolding forward_layers
reverse_layers g =
    let f = forward_layers g in if is_ok f.0 then (ok, reverse f.1, f.2) else (f.0, [], f.2)

abbrev pub empty_snapshot : {N : Type 0} → Snapshot N
empty_snapshot = record { nodes = []; dependents = []; dependency_counts = [] }

unfoldable pub snapshot : {N : Type 0} → Graph N → Status × Snapshot N × Graph N
unfolding validate_locked
snapshot g =
    let v = validate_locked g in
    if is_ok v.0
    then (
      ok,
      record {
        nodes = v.1.nodes;
        dependents = v.1.dependents;
        dependency_counts = v.1.dependency_counts;
      },
      v.1,
    )
    else (v.0, empty_snapshot, v.1)

module _ {N : Type 0} ⦃e : Eq N⦄ where
  unfoldable pub add_node : Graph N → N → Status × Graph N
  unfolding contains emplace
  add_node g node = if contains node g.node_indices then (duplicate_node, g) else (
    ok,
    record g {
      node_indices = emplace node (length g.nodes) g.node_indices;
      nodes = g.nodes ++ (node ∷ []);
      dependents = g.dependents ++ ([] ∷ []);
      dependency_counts = g.dependency_counts ++ (0 ∷ []);
      topology_valid = false;
    },
  )

  -- The edge from index `p` to index `d`.
  unfoldable pub connect : Graph N → ℕ → ℕ → Status × Graph N
  unfolding includes
  connect g p d =
      let ds = get_or g.dependents p [] in
      if includes d ds then (duplicate_dependency, g) else (
        ok,
        record g {
          dependents = set g.dependents p (ds ++ (d ∷ []));
          dependency_counts = set g.dependency_counts d (get_or g.dependency_counts d 0 + 1);
          edge_count = g.edge_count + 1;
          topology_valid = false;
        },
      )

  unfoldable pub add_dependency : Graph N → N → N → Status × Graph N
  unfolding connect lookup
  add_dependency g prerequisite dependent = elim (lookup prerequisite g.node_indices) [
    | none ↦ (node_not_found, g)
    | some p ↦ elim (lookup dependent g.node_indices) [
      | none ↦ (node_not_found, g)
      | some d ↦ connect g p d
    ]
  ]
