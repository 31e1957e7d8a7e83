-- ===== src/State/Topology.antt =====
-- `build_topology` of state/state.cpp: the subsystems and their dependencies as a graph.
pub mod Layers
pub mod Coverage
use puc.Base.{ℕ, List, [], ◌∷◌, none, some, lookup, contains, if◌then◌else◌}
use puc.Graph
use puc.Graph.{Graph}
use puc.State.{
  AppState, Status, ok, duplicate_subsystem, missing_dependency, duplicate_dependency,
  dependency_cycle, internal_error, id_eq,
}

unfoldable pub topology_status : Graph.Status → Status
topology_status Graph.ok = ok
topology_status Graph.duplicate_node = duplicate_subsystem
topology_status Graph.node_not_found = missing_dependency
topology_status Graph.duplicate_dependency = duplicate_dependency
topology_status Graph.dependency_cycle = dependency_cycle
topology_status Graph.invalid_argument = internal_error
topology_status Graph.execution_in_progress = internal_error
topology_status Graph.worker_submission_failed = internal_error

unfoldable pub add_nodes : List ℕ → Graph ℕ → Status × Graph ℕ
unfolding topology_status Graph.add_node
add_nodes [] g = (ok, g)
add_nodes (id ∷ ids) g =
    let r = Graph.add_node g id in
    let rest = add_nodes ids r.1 in if Graph.is_ok r.0 then rest else (topology_status r.0, r.1)

-- The dependencies of the subsystem `id`.
unfoldable pub add_dependencies : AppState → ℕ → List ℕ → Graph ℕ → Status × Graph ℕ
unfolding topology_status Graph.add_dependency contains
add_dependencies app id [] g = (ok, g)
add_dependencies app id (d ∷ ds) g =
    let r = Graph.add_dependency g d id in
    let rest = add_dependencies app id ds r.1 in
    if contains d app.subsystems
    then if Graph.is_ok r.0 then rest else (topology_status r.0, r.1)
    else (missing_dependency, g)

unfoldable pub add_edges : AppState → List ℕ → Graph ℕ → Status × Graph ℕ
unfolding add_dependencies lookup
add_edges app [] g = (ok, g)
add_edges app (id ∷ ids) g = elim (lookup id app.subsystems) [
  | none ↦ (internal_error, g)
  | some entry ↦
      let r = add_dependencies app id entry.subsystem.dependencies g in
      elim r.0 [ ok ↦ add_edges app ids r.1 | failure ↦ (failure, r.1) ]
]

-- The layers of a complete graph. The second query reads the cache of the first.
unfoldable pub cache_layers : AppState → Graph ℕ → Status × AppState
cache_layers app g =
    let f = Graph.forward_layers g in
    let r = Graph.reverse_layers f.2 in
    if Graph.is_ok f.0
    then if Graph.is_ok r.0
      then (ok, record app { forward_layers = f.1; reverse_layers = r.1 })
      else (topology_status r.0, app)
    else (topology_status f.0, app)

unfoldable pub build_topology : AppState → Status × AppState
build_topology app =
    let nodes = add_nodes app.registration_order Graph.empty in
    let edges = add_edges app app.registration_order nodes.1 in
    elim nodes.0 [
      | ok ↦ elim edges.0 [ ok ↦ cache_layers app edges.1 | failure ↦ (failure, app) ]
      | failure ↦ (failure, app)
    ]
