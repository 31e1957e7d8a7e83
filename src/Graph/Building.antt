-- ===== src/Graph/Building.antt =====
-- The operations of utils/execution_graph/dependency_graph.hpp keep a graph well formed, and its
-- layer queries succeed exactly on graphs without a cycle.
use puc.Base.{
  lookup-append, ℕ, zero, suc, ◌+◌, ◌≤◌, ◌<◌, ◌≡◌, refl, sym, ap, subst, ◌∙◌, inl, inr, Bool, true,
  false, some, List, [], ◌∷◌, ◌++◌, arith, ltb, ◌==◌, if◌then◌else◌, ltb→lt, Bool-cases,
  Option-cases, length, get_or, set, All, length-append, length-set, All-append, All-map, lookup,
  contains, Eq, lookup-append,
}
use puc.Base.Sorting.{count, count-append}
use puc.Graph.{includes, Graph, empty, add_node, connect, add_dependency, layering}
use puc.Graph.Weight.{total}
use puc.Graph.Release.{edges_to}
use puc.Graph.Acyclic.{IsShaped}

total_agree : (n : ℕ) (f g : ℕ → ℕ) → ((u : ℕ) → u < n → f u ≡ g u) → total n f ≡ total n g
unfolding total
total_agree zero f g h = refl
total_agree (suc n) f g h =
    omega (arith, total_agree n f g (λ u l. h u (omega (arith, l))), h n (omega arith))

-- One term is raised.
total_raised :
    (n p k : ℕ) (f g : ℕ → ℕ)
    → p < n
    → ((u : ℕ) → g u ≡ (if p == u then f u + k else f u))
    → total n g ≡ total n f + k
unfolding total
total_raised zero p k f g l h = absurd (omega arith)
total_raised (suc n) p k f g l h = elim (Bool-cases (p == n)) [
  | inl e ↦ ground (arith, e, h n, total_agree n f g (λ u i. ground (arith, e, i, h u)))
  | inr e ↦ ground (arith, e, l, h n, total_raised n p k f g (ground (arith, e, l)) h)
]

total_zero : (n : ℕ) (f : ℕ → ℕ) → ((u : ℕ) → f u ≡ 0) → total n f ≡ 0
unfolding total
total_zero zero f h = refl
total_zero (suc n) f h = omega (arith, total_zero n f h, h n)

-- A list of smaller numbers does not hold a number.
count-above : (n : ℕ) (xs : List ℕ) → All (λ v. v < n) xs → count n xs ≡ 0
count-above n [] h = refl
count-above n (x ∷ xs) h = ground (arith, h.0, count-above n xs h.1)

wider : (n : ℕ) (xs : List ℕ) → All (λ v. v < n) xs → All (λ v. v < suc n) xs
wider n xs h = All-map (λ v. v < n) (λ v. v < suc n) xs (λ v l. omega (arith, l)) h

get_or-snoc : (xs : List (List ℕ)) (i : ℕ) → get_or (xs ++ ([] ∷ [])) i [] ≡ get_or xs i []
get_or-snoc [] zero = refl
get_or-snoc [] (suc i) = refl
get_or-snoc (x ∷ xs) zero = refl
get_or-snoc (x ∷ xs) (suc i) = get_or-snoc xs i

counter-snoc : (xs : List ℕ) (i : ℕ) → get_or (xs ++ (0 ∷ [])) i 0 ≡ get_or xs i 0
counter-snoc [] zero = refl
counter-snoc [] (suc i) = refl
counter-snoc (x ∷ xs) zero = refl
counter-snoc (x ∷ xs) (suc i) = counter-snoc xs i

get_or_past : (xs : List ℕ) (i : ℕ) → length xs ≤ i → get_or xs i 0 ≡ 0
get_or_past [] i h = refl
get_or_past (x ∷ xs) zero h = absurd (omega arith)
get_or_past (x ∷ xs) (suc i) h = get_or_past xs i (omega arith)

get_or-write :
    {A : Type 0} (xs : List A) (i j : ℕ) (v d : A)
    → i < length xs
    → get_or (set xs i v) j d ≡ (if i == j then v else get_or xs j d)
get_or-write [] i j v d l = absurd (omega arith)
get_or-write (x ∷ xs) zero zero v d l = refl
get_or-write (x ∷ xs) zero (suc j) v d l = ground arith
get_or-write (x ∷ xs) (suc i) zero v d l = ground arith
get_or-write (x ∷ xs) (suc i) (suc j) v d l =
    get_or-write xs i j v d (omega (arith, l)) ∙ ground arith

either : (P : List ℕ → Type 0) (b : Bool) (x y : List ℕ) → P x → P y → P (if b then x else y)
either P true x y p q = p
either P false x y p q = q

none_past : (xs : List (List ℕ)) (i : ℕ) → length xs ≤ i → get_or xs i [] ≡ []
none_past [] i h = refl
none_past (x ∷ xs) zero h = absurd (omega arith)
none_past (x ∷ xs) (suc i) h = none_past xs i (omega arith)

count_either :
    (dependents : List (List ℕ)) (d v u p : ℕ)
    → count v (if p == u then get_or dependents p [] ++ (d ∷ []) else get_or dependents u []) ≡ (
        if p == u
        then edges_to dependents v u + (if d == v then 1 else 0)
        else edges_to dependents v u)
count_either dependents d v u p = elim (Bool-cases (p == u)) [
  | inl e ↦
      let q : p ≡ u = ground (arith, e) in
      rw e (
        count-append v (get_or dependents p []) (d ∷ [])
        ∙ ap (λ (k : ℕ). edges_to dependents v k + (if d == v then 1 else 0)) q)
  | inr e ↦ rw e refl
]

-- The cache of a graph holds the layers that a validation finds.
abbrev pub IsCached : {N : Type 0} → Graph N → Type 0
IsCached g =
    g.topology_valid ≡ true
    → ((layering g).1 ≡ length g.nodes) × (g.forward_layer_indices ≡ (layering g).0)

pub record IsGraph {N : Type 0} ⦃e : Eq N⦄ (g : Graph N) : Type 0 where
  pub shaped : IsShaped g
  pub dependents_length : length g.dependents ≡ length g.nodes
  pub indexed : (k : N) (i : ℕ) → lookup k g.node_indices ≡ some i → i < length g.nodes
  pub cached : IsCached g

module _ {N : Type 0} ⦃e : Eq N⦄ where
  pub empty-IsGraph : IsGraph {N = N} empty
  unfolding total lookup
  empty-IsGraph = record {
    shaped = record {
      counts_length = refl;
      targets = λ u. tt;
      counted = λ v l. absurd (omega (arith, l));
    };
    dependents_length = refl;
    indexed = λ k i h. absurd cc;
    cached = λ h. absurd cc;
  }

  new_indexed :
      (g : Graph N) (node k : N) (i : ℕ)
      → IsGraph g
      → length (g.nodes ++ (node ∷ [])) ≡ suc (length g.nodes)
      → lookup k (g.node_indices ++ ((node, length g.nodes) ∷ [])) ≡ some i
      → i < length (g.nodes ++ (node ∷ []))
  unfolding lookup
  new_indexed g node k i h size q =
      ground (
        arith,
        size,
        q,
        lookup-append k g.node_indices ((node, length g.nodes) ∷ []),
        h.indexed k i,
      )

  -- A new node has no edges.
  new_counted :
      (g : Graph N) (node : N) (v : ℕ)
      → IsGraph g
      → v < suc (length g.nodes)
      → get_or (g.dependency_counts ++ (0 ∷ [])) v 0
        ≡ total (suc (length g.nodes)) (edges_to (g.dependents ++ ([] ∷ [])) v)
  unfolding total
  new_counted g node v h l =
      let n = length g.nodes in
      let same =
        total_agree n (edges_to (g.dependents ++ ([] ∷ [])) v) (edges_to g.dependents v)
          (λ u i. ap (count v) (get_or-snoc g.dependents u)) in
      let none_new : edges_to (g.dependents ++ ([] ∷ [])) v n ≡ 0 = ap (count v) (
        get_or-snoc g.dependents n
        ∙ none_past g.dependents n (omega (arith, h.dependents_length))) in
      counter-snoc g.dependency_counts v ∙ elim (Bool-cases (ltb v n)) [
        | inl b ↦ omega (arith, same, none_new, h.shaped.counted v (ltb→lt v n b))
        | inr b ↦
            let q : v ≡ n = ground (arith, b, l) in
            omega (
              arith,
              same,
              none_new,
              get_or_past g.dependency_counts v (omega (arith, q, h.shaped.counts_length)),
              total_zero n (edges_to g.dependents v) (λ u.
                  ap (λ (k : ℕ). count k (get_or g.dependents u [])) q
                  ∙ count-above n (get_or g.dependents u []) (h.shaped.targets u)),
            )
      ]

  pub add_node-IsGraph : (g : Graph N) (node : N) → IsGraph g → IsGraph (add_node g node).1
  unfolding add_node
  add_node-IsGraph g node h =
      let n = length g.nodes in
      let size : length (g.nodes ++ (node ∷ [])) ≡ suc n =
        omega (arith, length-append g.nodes (node ∷ [])) in
      elim (Bool-cases (contains node g.node_indices)) [
        | inl c ↦ rw (add_node, c) h
        | inr c ↦
            rw (add_node, c)
              (record {
                shaped = record {
                  counts_length = omega (
                    arith,
                    size,
                    h.shaped.counts_length,
                    length-append g.dependency_counts (0 ∷ []),
                  );
                  targets = λ u.
                      subst (λ (k : ℕ). All (λ v. v < k) (get_or (g.dependents ++ ([] ∷ [])) u []))
                        (sym size)
                        (subst (All (λ v. v < suc n)) (sym (get_or-snoc g.dependents u))
                          (wider n (get_or g.dependents u []) (h.shaped.targets u)));
                  counted = λ v l.
                      new_counted g node v h (omega (arith, size, l))
                      ∙ ap (λ (k : ℕ). total k (edges_to (g.dependents ++ ([] ∷ [])) v)) (sym size);
                };
                dependents_length =
                    omega (arith, size, h.dependents_length, length-append g.dependents ([] ∷ []));
                indexed = λ k i q. new_indexed g node k i h size q;
                cached = λ q. absurd cc;
              })
      ]

  -- A new edge raises one counter and one sum.
  edge_counted :
      (g : Graph N) (p d v : ℕ)
      → p < length g.nodes
      → d < length g.nodes
      → IsGraph g
      → v < length g.nodes
      → get_or (set g.dependency_counts d (get_or g.dependency_counts d 0 + 1)) v 0
        ≡ total
            (length g.nodes)
            (edges_to (set g.dependents p (get_or g.dependents p [] ++ (d ∷ []))) v)
  edge_counted g p d v i j h l =
      let new = set g.dependents p (get_or g.dependents p [] ++ (d ∷ [])) in
      let raised =
        total_raised (length g.nodes) p (if d == v then 1 else 0) (edges_to g.dependents v)
          (edges_to new v) i
          (λ u.
            ap (count v)
              (get_or-write g.dependents p u _ [] (omega (arith, i, h.dependents_length)))
            ∙ count_either g.dependents d v u p) in
      ground (
        arith,
        raised,
        h.shaped.counted v l,
        get_or-write g.dependency_counts d v (get_or g.dependency_counts d 0 + 1) 0
            (omega (arith, j, h.shaped.counts_length)),
      )

  -- The edge is between nodes.
  connect-IsGraph :
      (g : Graph N) (p d : ℕ)
      → p < length g.nodes
      → d < length g.nodes
      → IsGraph g
      → IsGraph (connect g p d).1
  unfolding connect
  connect-IsGraph g p d i j h = elim (Bool-cases (includes d (get_or g.dependents p []))) [
    | inl c ↦ rw (connect, c) h
    | inr c ↦
        rw (connect, c)
          (record {
            shaped = record {
              counts_length = length-set g.dependency_counts d _ ∙ h.shaped.counts_length;
              targets = λ u.
                  subst (All (λ v. v < length g.nodes))
                    (sym
                      (get_or-write g.dependents p u _ [] (omega (arith, i, h.dependents_length))))
                    (either (λ xs. All (λ v. v < length g.nodes) xs) (p == u) _ _
                      (All-append _ _ (d ∷ []) (h.shaped.targets p) (j, tt)) (h.shaped.targets u));
              counted = λ v l. edge_counted g p d v i j h l;
            };
            dependents_length = length-set g.dependents p _ ∙ h.dependents_length;
            indexed = h.indexed;
            cached = λ q. absurd cc;
          })
  ]

  pub add_dependency-IsGraph :
      (g : Graph N) (prerequisite dependent : N)
      → IsGraph g
      → IsGraph (add_dependency g prerequisite dependent).1
  unfolding add_dependency
  add_dependency-IsGraph g p d h = elim (Option-cases (lookup p g.node_indices)) [
    | inl e ↦ rw (add_dependency, e) h
    | inr (i, e) ↦ elim (Option-cases (lookup d g.node_indices)) [
      | inl f ↦ rw (add_dependency, e, f) h
      | inr (j, f) ↦
          rw (add_dependency, e, f) (connect-IsGraph g i j (h.indexed p i e) (h.indexed d j f) h)
    ]
  ]
