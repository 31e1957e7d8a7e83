-- ===== src/State/Topology/Layers.antt =====
-- The layers that `build_topology` caches: one list is the other reversed.
use puc.Base.{
  ℕ, ◌+◌, ◌≡◌, ◌⊎◌, inl, inr, refl, List, [], ◌∷◌, ◌++◌, reverse, reverse-cons, concat, arith, ap,
  Bool-cases,
}
use puc.Base.Sorting.{count, count-append}
use puc.Graph
use puc.Graph.{Graph}
use puc.Graph.Cache.{reverse_layers-forward_layers}
use puc.State.{AppState, Status, ok}
use puc.State.Topology.{build_topology, cache_layers, add_nodes, add_edges}

count-concat-append :
    (v : ℕ) (xs ys : List (List ℕ))
    → count v (concat (xs ++ ys)) ≡ count v (concat xs) + count v (concat ys)
count-concat-append v [] ys = omega arith
count-concat-append v (x ∷ xs) ys = omega (
  arith,
  count-append v x (concat (xs ++ ys)),
  count-append v x (concat xs),
  count-concat-append v xs ys,
)

pub count-concat-reverse :
    (v : ℕ) (layers : List (List ℕ)) → count v (concat (reverse layers)) ≡ count v (concat layers)
count-concat-reverse v [] = refl
count-concat-reverse v (l ∷ ls) = omega (
  arith,
  ap (λ (t : List (List ℕ)). count v (concat t)) (reverse-cons l ls),
  count-concat-append v (reverse ls) (l ∷ []),
  count-append v l [],
  count-append v l (concat ls),
  count-concat-reverse v ls,
)

-- What `build_topology` may return as the state.
abbrev pub Cached : AppState → AppState → Type 0
Cached app after =
    (after ≡ app)
    ⊎ ((layers : List (List ℕ)) × (after
          ≡ record app { forward_layers = layers; reverse_layers = reverse layers }))

cache_layers-Cached : (app : AppState) (g : Graph ℕ) → Cached app (cache_layers app g).1
unfolding cache_layers
cache_layers-Cached app g = elim (Bool-cases (Graph.is_ok (Graph.forward_layers g).0)) [
  | inr bad ↦ inl (ground arith)
  | inl good ↦ elim (Bool-cases (Graph.is_ok (Graph.reverse_layers (Graph.forward_layers g).2).0)) [
    | inr bad ↦ inl (ground arith)
    | inl fine ↦ inr (
      (Graph.forward_layers g).1,
      rw (good, fine, cache_layers, reverse_layers-forward_layers g good),
    )
  ]
]

pub build_topology-Cached : (app : AppState) → Cached app (build_topology app).1
unfolding build_topology
build_topology-Cached app =
    let nodes = add_nodes app.registration_order Graph.empty in
    let edges = add_edges app app.registration_order nodes.1 in
    failed nodes.0 edges.0 (cache_layers app edges.1) (cache_layers-Cached app edges.1)
  where
    failed :
        (s t : Status) (r : Status × AppState)
        → Cached app r.1
        → Cached app
            (let r' : Status × AppState = elim s [
              | ok ↦ elim t [ ok ↦ r | failure ↦ (failure, app) ]
              | failure ↦ (failure, app)
            ] in
              r').1
    failed ok ok r c = c
    failed ok _ r c = inl refl
    failed _ t r c = inl refl
