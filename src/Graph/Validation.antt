-- ===== src/Graph/Validation.antt =====
-- The layer queries of utils/execution_graph/dependency_graph.hpp after any history of calls.
use puc.Base.{
  ℕ, ◌≡◌, refl, sym, ap, subst, ◌∙◌, ◌≢◌, ◌↔◌, inl, inr, true, false, List, [], ◌∷◌, map, arith,
  ◌==◌, Bool-cases, length, Eq,
}
use puc.Graph.{
  Graph, Status, ok, is_ok, empty, add_node, add_dependency, validate_locked, layering,
  forward_layers, nodes_at, dependency_cycle,
}
use puc.Graph.Acyclic.{IsAcyclic, IsLayering, layering-IsAcyclic}
use puc.Graph.Building.{IsGraph, empty-IsGraph, add_node-IsGraph, add_dependency-IsGraph}

pub data Call (N : Type 0) : Type 0 where
  adding : N → Call N
  depending : N → N → Call N
  asking : Call N

abbrev found : {N : Type 0} → Graph N → Graph N
found g = record g { forward_layer_indices = (layering g).0; topology_valid = true }

abbrev cyclic : {N : Type 0} → Graph N → Graph N
cyclic g = record g { forward_layer_indices = [] }

found-layering : {N : Type 0} (g : Graph N) → layering (found g) ≡ layering g
unfolding layering
found-layering g = refl

validate_cached : {N : Type 0} (g : Graph N) → g.topology_valid ≡ true → validate_locked g ≡ (ok, g)
unfolding validate_locked
validate_cached g t = ground (arith, t)

validate_found :
    {N : Type 0} (g : Graph N)
    → g.topology_valid ≡ false
    → (layering g).1 ≡ length g.nodes
    → validate_locked g ≡ (ok, found g)
unfolding validate_locked
validate_found g t v = ground (arith, t, v)

validate_cyclic :
    {N : Type 0} (g : Graph N)
    → g.topology_valid ≡ false
    → (layering g).1 ≢ length g.nodes
    → validate_locked g ≡ (dependency_cycle, cyclic g)
unfolding validate_locked
validate_cyclic g t v = ground (arith, t, v)

-- The nodes of the layers that are cached.
pub nodes_of_layers :
    {N : Type 0} (g : Graph N)
    → is_ok (forward_layers g).0 ≡ true
    → (forward_layers g).1
      ≡ map (nodes_at (validate_locked g).1.nodes) (validate_locked g).1.forward_layer_indices
unfolding forward_layers
nodes_of_layers g h = ground (arith, h)

forward_layers-validate :
    {N : Type 0} (g : Graph N)
    → (is_ok (forward_layers g).0 ≡ is_ok (validate_locked g).0)
      × ((forward_layers g).2 ≡ (validate_locked g).1)
unfolding forward_layers
forward_layers-validate g = (ground arith, ground arith)

module _ {N : Type 0} ⦃e : Eq N⦄ (g : Graph N) (h : IsGraph g) where
  -- The three ways in which a validation ends.
  abbrev Ended : Status × Graph N → Type 0
  Ended r =
      IsGraph r.1
      × ((is_ok r.0 ≡ true) ↔ IsAcyclic g)
      × (is_ok r.0 ≡ true → IsLayering g r.1.forward_layer_indices)
      × (r.1.nodes ≡ g.nodes)

  validate_locked-Ended : Ended (validate_locked g)
  validate_locked-Ended =
      let (acyclic, layered) = layering-IsAcyclic g h.shaped in
      elim (Bool-cases g.topology_valid) [
        | inl t ↦
            let c = h.cached t in
            subst Ended (sym (validate_cached g t)) (
              h,
              ((λ _. acyclic.0 c.0), (λ _. refl)),
              (λ _. subst (IsLayering g) (sym c.1) (layered c.0)),
              refl,
            )
        | inr t ↦ elim (Bool-cases ((layering g).1 == length g.nodes)) [
          | inl b ↦
              let v : (layering g).1 ≡ length g.nodes = ground (arith, b) in
              subst Ended (sym (validate_found g t v)) (
                record {
                  shaped = record {
                    counts_length = h.shaped.counts_length;
                    targets = h.shaped.targets;
                    counted = h.shaped.counted;
                  };
                  dependents_length = h.dependents_length;
                  indexed = h.indexed;
                  cached = λ _. (
                    ap (λ (r : List (List ℕ) × ℕ). r.1) (found-layering g) ∙ v,
                    ap (λ (r : List (List ℕ) × ℕ). r.0) (sym (found-layering g)),
                  );
                },
                ((λ _. acyclic.0 v), (λ _. refl)),
                (λ _. layered v),
                refl,
              )
          | inr b ↦
              let v : (layering g).1 ≢ length g.nodes = λ q. ground (arith, b, q) in
              subst Ended (sym (validate_cyclic g t v)) (
                record {
                  shaped = record {
                    counts_length = h.shaped.counts_length;
                    targets = h.shaped.targets;
                    counted = h.shaped.counted;
                  };
                  dependents_length = h.dependents_length;
                  indexed = h.indexed;
                  cached = λ q. absurd (ground (arith, q, t));
                },
                ((λ q. absurd cc), (λ a. absurd (v (acyclic.1 a)))),
                (λ q. absurd cc),
                refl,
              )
        ]
      ]

  -- On a well-formed graph the layer query succeeds exactly when some rank rises along every edge.
  pub forward_layers-IsAcyclic : (is_ok (forward_layers g).0 ≡ true) ↔ IsAcyclic g
  forward_layers-IsAcyclic =
      let (kept, answer, layers, same) = validate_locked-Ended in
      let f = forward_layers-validate g in (λ q. answer.0 (sym f.0 ∙ q), λ a. f.0 ∙ answer.1 a)

  -- When the layer query succeeds on a well-formed graph, its layers are the nodes of index lists that
  -- hold each node once, behind all nodes that have an edge to it.
  pub forward_layers-IsLayering :
      is_ok (forward_layers g).0 ≡ true
      → (indices : List (List ℕ)) × IsLayering g indices
        × ((forward_layers g).1 ≡ map (nodes_at g.nodes) indices)
  forward_layers-IsLayering q =
      let (kept, answer, layers, same) = validate_locked-Ended in
      (
        (validate_locked g).1.forward_layer_indices,
        layers (sym (forward_layers-validate g).0 ∙ q),
        nodes_of_layers g q
            ∙ ap (λ (ns : List N). map (nodes_at ns) (validate_locked g).1.forward_layer_indices)
                same,
      )

  forward_layers-IsGraph : IsGraph (forward_layers g).2
  forward_layers-IsGraph =
      subst (λ (k : Graph N). IsGraph k) (sym (forward_layers-validate g).1) validate_locked-Ended.0

module _ {N : Type 0} ⦃e : Eq N⦄ where
  unfoldable pub call : Call N → Graph N → Graph N
  call (adding node) g = (add_node g node).1
  call (depending prerequisite dependent) g = (add_dependency g prerequisite dependent).1
  call asking g = (forward_layers g).2

  unfoldable pub run : List (Call N) → Graph N → Graph N
  unfolding call
  run [] g = g
  run (c ∷ cs) g = run cs (call c g)

  call-IsGraph : (c : Call N) (g : Graph N) → IsGraph g → IsGraph (call c g)
  unfolding call
  call-IsGraph (adding node) g h = add_node-IsGraph g node h
  call-IsGraph (depending p d) g h = add_dependency-IsGraph g p d h
  call-IsGraph asking g h = forward_layers-IsGraph g h

  run_keeps-IsGraph : (cs : List (Call N)) (g : Graph N) → IsGraph g → IsGraph (run cs g)
  unfolding run
  run_keeps-IsGraph [] g h = h
  run_keeps-IsGraph (c ∷ cs) g h = run_keeps-IsGraph cs (call c g) (call-IsGraph c g h)

  -- After any history of calls on an empty graph, the edges are between nodes, each counter is the
  -- number of edges into its node, each name stands for a node, and cached layers are those of a
  -- validation.
  pub run-IsGraph : (calls : List (Call N)) → IsGraph (run calls empty)
  run-IsGraph calls = run_keeps-IsGraph calls empty empty-IsGraph
