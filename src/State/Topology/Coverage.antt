-- ===== src/State/Topology/Coverage.antt =====
-- The layers that a successful `build_topology` caches hold every registered subsystem.
use puc.Base.{
  ℕ, suc, ◌<◌, ◌≡◌, refl, sym, ap, subst, ◌∙◌, inl, inr, true, false, some, List, [], ◌∷◌, ◌++◌,
  map, append-nil, append_assoc, arith, ltb, ◌==◌, ltb→lt, Bool-cases, Option-cases, length,
  get_elem?, get_or, concat, lookup, contains,
}
use puc.Base.Sorting.{count, count-append}
use puc.Graph
use puc.Graph.{Graph, nodes_at}
use puc.Graph.Building.{IsGraph, empty-IsGraph, add_node-IsGraph, add_dependency-IsGraph}
use puc.Graph.Validation.{forward_layers-IsLayering}
use puc.State.{AppState, Status, ok, is_ok, id_eq}
use puc.State.Topology.{
  topology_status, add_nodes, add_dependencies, add_edges, cache_layers, build_topology,
}

-- A graph of subsystems, before and after edges were added.
record HasNodes (nodes : List ℕ) (g : Graph ℕ) : Type 0 where
  graph : IsGraph g
  same : g.nodes ≡ nodes

add_node-nodes :
    (g : Graph ℕ) (id : ℕ)
    → Graph.is_ok (Graph.add_node g id).0 ≡ true
    → (Graph.add_node g id).1.nodes ≡ g.nodes ++ (id ∷ [])
unfolding Graph.add_node
add_node-nodes g id e = ground (arith, e)

failed_status : (s : Graph.Status) → Graph.is_ok s ≡ false → is_ok (topology_status s) ≡ false
unfolding topology_status
failed_status s e = ground (arith, e)

add_nodes_failed :
    (id : ℕ) (ids : List ℕ) (g : Graph ℕ)
    → Graph.is_ok (Graph.add_node g id).0 ≡ false
    → (add_nodes (id ∷ ids) g).0 ≡ topology_status (Graph.add_node g id).0
unfolding add_nodes
add_nodes_failed id ids g e = rw (add_nodes, e) refl

add_nodes_goes :
    (id : ℕ) (ids : List ℕ) (g : Graph ℕ)
    → Graph.is_ok (Graph.add_node g id).0 ≡ true
    → add_nodes (id ∷ ids) g ≡ add_nodes ids (Graph.add_node g id).1
unfolding add_nodes
add_nodes_goes id ids g e = rw (add_nodes, e) refl

add_nodes-HasNodes :
    (ids before : List ℕ) (g : Graph ℕ)
    → HasNodes before g
    → is_ok (add_nodes ids g).0 ≡ true
    → HasNodes (before ++ ids) (add_nodes ids g).1
unfolding add_nodes
add_nodes-HasNodes [] before g h e = record {
  graph = h.graph;
  same = h.same ∙ sym (append-nil before);
}
add_nodes-HasNodes (id ∷ ids) before g h e =
    let r = Graph.add_node g id in
    elim (Bool-cases (Graph.is_ok r.0)) [
      | inr b ↦ absurd (ground (arith, failed_status r.0 b, add_nodes_failed id ids g b, e))
      | inl b ↦
          let next : HasNodes (before ++ (id ∷ [])) r.1 = record {
            graph = add_node-IsGraph g id h.graph;
            same = add_node-nodes g id b ∙ ap (λ (ns : List ℕ). ns ++ (id ∷ [])) h.same;
          } in
          let rest =
            add_nodes-HasNodes ids (before ++ (id ∷ [])) r.1 next
              (sym (ap (λ (x : Status × Graph ℕ). is_ok x.0) (add_nodes_goes id ids g b)) ∙ e) in
          subst (λ (x : Status × Graph ℕ). HasNodes (before ++ (id ∷ ids)) x.1)
            (sym (add_nodes_goes id ids g b))
            (subst (λ (ns : List ℕ). HasNodes ns (add_nodes ids r.1).1)
              (append_assoc before (id ∷ []) ids) rest)
    ]

add_dependency-nodes : (g : Graph ℕ) (p d : ℕ) → (Graph.add_dependency g p d).1.nodes ≡ g.nodes
unfolding Graph.add_dependency Graph.connect
add_dependency-nodes g p d = elim (Option-cases (lookup p g.node_indices)) [
  | inl m ↦ rw (Graph.add_dependency, m) refl
  | inr (i, m) ↦ elim (Option-cases (lookup d g.node_indices)) [
    | inl k ↦ rw (Graph.add_dependency, m, k) refl
    | inr (j, k) ↦ elim (Bool-cases (Graph.includes j (get_or g.dependents i []))) [
      | inl b ↦ rw (Graph.add_dependency, m, k, Graph.connect, b) refl
      | inr b ↦ rw (Graph.add_dependency, m, k, Graph.connect, b) refl
    ]
  ]
]

add_dependencies-HasNodes :
    (app : AppState) (id : ℕ) (ds nodes : List ℕ) (g : Graph ℕ)
    → HasNodes nodes g
    → HasNodes nodes (add_dependencies app id ds g).1
unfolding add_dependencies
add_dependencies-HasNodes app id [] nodes g h = h
add_dependencies-HasNodes app id (d ∷ ds) nodes g h =
    let r = Graph.add_dependency g d id in
    let next : HasNodes nodes r.1 = record {
      graph = add_dependency-IsGraph g d id h.graph;
      same = add_dependency-nodes g d id ∙ h.same;
    } in
    elim (Bool-cases (contains d app.subsystems)) [
      | inr b ↦ rw (add_dependencies, b) h
      | inl b ↦ elim (Bool-cases (Graph.is_ok r.0)) [
        | inr c ↦ rw (add_dependencies, b, c) next
        | inl c ↦ rw (add_dependencies, b, c) (add_dependencies-HasNodes app id ds nodes r.1 next)
      ]
    ]

add_edges-HasNodes :
    (app : AppState) (ids nodes : List ℕ) (g : Graph ℕ)
    → HasNodes nodes g
    → HasNodes nodes (add_edges app ids g).1
unfolding add_edges
add_edges-HasNodes app [] nodes g h = h
add_edges-HasNodes app (id ∷ ids) nodes g h = elim (Option-cases (lookup id app.subsystems)) [
  | inl m ↦ rw (add_edges, m) h
  | inr (entry, m) ↦
      let r = add_dependencies app id entry.subsystem.dependencies g in
      let next = add_dependencies-HasNodes app id entry.subsystem.dependencies nodes g h in
      rw (add_edges, m)
        (chosen r.0 (add_edges app ids r.1) r.1 (add_edges-HasNodes app ids nodes r.1 next) next)
]
  where
    chosen :
        (s : Status) (goes : Status × Graph ℕ) (g : Graph ℕ)
        → HasNodes nodes goes.1
        → HasNodes nodes g
        → HasNodes nodes
            (let r : Status × Graph ℕ = elim s [ ok ↦ goes | failure ↦ (failure, g) ] in r).1
    chosen ok goes g a b = a
    chosen _ goes g a b = b

-- A node stands at an index, and the nodes at a list of indexes have it when the list has the index.
node_index :
    (nodes : List ℕ) (j : ℕ)
    → 0 < count j nodes
    → (v : ℕ) × (v < length nodes) × (get_elem? nodes v ≡ some j)
node_index [] j l = absurd (omega (arith, l))
node_index (x ∷ xs) j l = elim (Bool-cases (x == j)) [
  | inl b ↦ (0, omega arith, ap some (ground (arith, b)))
  | inr b ↦ let r = node_index xs j (ground (arith, b, l)) in (suc r.0, omega (arith, r.1), r.2)
]

found : (j : ℕ) (xs : List ℕ) → 0 < count j (j ∷ xs)
found j xs = ground arith

behind : (j n : ℕ) (xs : List ℕ) → 0 < count j xs → 0 < count j (n ∷ xs)
behind j n xs l = ground (arith, l)

count-nodes_at :
    (nodes indices : List ℕ) (j v : ℕ)
    → get_elem? nodes v ≡ some j
    → 0 < count v indices
    → 0 < count j (nodes_at nodes indices)
unfolding nodes_at
count-nodes_at nodes [] j v e l = absurd (omega (arith, l))
count-nodes_at nodes (i ∷ is) j v e l = elim (Bool-cases (i == v)) [
  | inl b ↦
      let here : get_elem? nodes i ≡ some j = ap (get_elem? nodes) (ground (arith, b)) ∙ e in
      rw (nodes_at, here) (found j (nodes_at nodes is))
  | inr b ↦
      let there = count-nodes_at nodes is j v e (ground (arith, b, l)) in
      elim (Option-cases (get_elem? nodes i)) [
        | inl m ↦ rw (nodes_at, m) there
        | inr (n, m) ↦ rw (nodes_at, m) (behind j n (nodes_at nodes is) there)
      ]
]

count-concat :
    (nodes : List ℕ) (layers : List (List ℕ)) (j v : ℕ)
    → get_elem? nodes v ≡ some j
    → 0 < count v (concat layers)
    → 0 < count j (concat (map (nodes_at nodes) layers))
count-concat nodes [] j v e l = absurd (omega (arith, l))
count-concat nodes (x ∷ xs) j v e l = elim (Bool-cases (ltb 0 (count v x))) [
  | inl b ↦ omega (
    arith,
    count-nodes_at nodes x j v e (ltb→lt 0 (count v x) b),
    count-append j (nodes_at nodes x) (concat (map (nodes_at nodes) xs)),
  )
  | inr b ↦
      let none_here : count v x ≡ 0 = ground (arith, b) in
      let there =
        count-concat nodes xs j v e (omega (arith, l, none_here, count-append v x (concat xs))) in
      omega (arith, there, count-append j (nodes_at nodes x) (concat (map (nodes_at nodes) xs)))
]

cache_layers-count :
    (app : AppState) (g : Graph ℕ) (nodes : List ℕ) (j : ℕ)
    → HasNodes nodes g
    → is_ok (cache_layers app g).0 ≡ true
    → 0 < count j nodes
    → 0 < count j (concat (cache_layers app g).1.forward_layers)
unfolding cache_layers
cache_layers-count app g nodes j h e l =
    let f = Graph.forward_layers g in
    elim (Bool-cases (Graph.is_ok f.0)) [
      | inr b ↦ absurd (ground (arith, b, e, failed_status f.0 b))
      | inl b ↦
          let r = Graph.reverse_layers f.2 in
          elim (Bool-cases (Graph.is_ok r.0)) [
            | inr c ↦ absurd (ground (arith, b, c, e, failed_status r.0 c))
            | inl c ↦
                let (indices, layers, same) = forward_layers-IsLayering g h.graph b in
                let (v, inside, there) =
                  node_index g.nodes j (subst (λ (ns : List ℕ). 0 < count j ns) (sym h.same) l) in
                rw (b, c, cache_layers, same)
                  (count-concat g.nodes indices j v there (omega (arith, layers.once v inside)))
          ]
    ]

-- After a successful build every id of the registration order is in the layers.
pub build_topology-count :
    (app : AppState) (j : ℕ)
    → is_ok (build_topology app).0 ≡ true
    → 0 < count j app.registration_order
    → 0 < count j (concat (build_topology app).1.forward_layers)
unfolding build_topology
build_topology-count app j e l =
    let nodes = add_nodes app.registration_order Graph.empty in
    let edges = add_edges app app.registration_order nodes.1 in
    counted nodes.0 edges.0 (cache_layers app edges.1)
      (λ a c.
        cache_layers-count app edges.1 app.registration_order j
          (add_edges-HasNodes app app.registration_order app.registration_order nodes.1 (
            add_nodes-HasNodes app.registration_order [] Graph.empty
              (record { graph = empty-IsGraph; same = refl }) a))
          c l)
      e
  where
    counted :
        (s t : Status) (r : Status × AppState)
        → (is_ok s ≡ true → is_ok r.0 ≡ true → 0 < count j (concat r.1.forward_layers))
        → is_ok
            (let r' : Status × AppState = elim s [
              | ok ↦ elim t [ ok ↦ r | failure ↦ (failure, app) ]
              | failure ↦ (failure, app)
            ] in
              r').0
          ≡ true
        → 0
          < count j (
              concat
                (let r' : Status × AppState = elim s [
                  | ok ↦ elim t [ ok ↦ r | failure ↦ (failure, app) ]
                  | failure ↦ (failure, app)
                ] in
                  r').1.forward_layers)
    counted ok ok r c h = c refl h
    counted ok _ r c h = absurd (ground arith)
    counted _ t r c h = absurd (ground arith)
