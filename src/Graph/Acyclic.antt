-- ===== src/Graph/Acyclic.antt =====
-- The validation of utils/execution_graph/dependency_graph.hpp finds layers exactly when there is no
-- cycle.
use puc.Base.{
  ℕ, zero, suc, ◌+◌, ◌≤◌, ◌<◌, ◌≡◌, refl, sym, ap, subst, ◌↔◌, inl, inr, ◌&&◌, List, [], ◌∷◌, ◌++◌,
  append_assoc, arith, ltb, leb, ◌==◌, if◌then◌else◌, ltb→lt, Bool-cases, length, get_or, concat,
  All, All-map,
}
use puc.Base.Sorting.{count, count-append}
use puc.Graph.{Graph, zeros, layering}
use puc.Graph.Weight.{
  weight, total, IsSparse, weight-nil, missing_weight, one, total-one, length-weight, full_weight,
}
use puc.Graph.Release.{edges_to}
use puc.Graph.Layering.{from, from_all, Ordered, done_le, Ends, rounds-Ends}

count-zeros :
    (v n i : ℕ) (counts : List ℕ)
    → count v (zeros n i counts)
      ≡ (if leb i v && ltb v (i + n) && (get_or counts v 0 == 0) then 1 else 0)
unfolding zeros
count-zeros v zero i counts = ground arith
count-zeros v (suc n) i counts = elim (Bool-cases (i == v)) [
  | inl e ↦
      let q : i ≡ v = ground (arith, e) in
      ground (arith, q, ap (λ (k : ℕ). get_or counts k 0) q, count-zeros v n (i + 1) counts)
  | inr e ↦ ground (arith, e, count-zeros v n (i + 1) counts)
]

zeros-All : (n i m : ℕ) (counts : List ℕ) → i + n ≤ m → All (λ v. v < m) (zeros n i counts)
unfolding zeros
zeros-All zero i m counts h = tt
zeros-All (suc n) i m counts h = elim (Bool-cases (get_or counts i 0 == 0)) [
  | inl e ↦ rw (zeros, e) (omega (arith, h), zeros-All n (i + 1) m counts (omega (arith, h)))
  | inr e ↦ rw (zeros, e) (zeros-All n (i + 1) m counts (omega (arith, h)))
]

-- The edges are between nodes, and each counter is the number of edges into its node.
All-at : (P : ℕ → Type 0) (xs : List ℕ) (v : ℕ) → All P xs → 0 < count v xs → P v
All-at P [] v a l = absurd (omega arith)
All-at P (x ∷ xs) v a l = elim (Bool-cases (x == v)) [
  | inl e ↦ subst P (ground (arith, e)) a.0
  | inr e ↦ All-at P xs v a.1 (ground (arith, e, l))
]

pub record IsShaped {N : Type 0} (g : Graph N) : Type 0 where
  pub counts_length : length g.dependency_counts ≡ length g.nodes
  pub targets : (u : ℕ) → All (λ v. v < length g.nodes) (get_or g.dependents u [])
  pub counted :
      (v : ℕ)
      → v < length g.nodes
      → get_or g.dependency_counts v 0 ≡ total (length g.nodes) (edges_to g.dependents v)

-- A rank that every edge raises.
abbrev pub IsAcyclic : {N : Type 0} → Graph N → Type 0
IsAcyclic g =
    (rank : ℕ → ℕ) × ((u v : ℕ)
      → u < length g.nodes
      → v < length g.nodes
      → 0 < edges_to g.dependents v u
      → rank u < rank v)

-- The layers hold the nodes once each, and all that have an edge to a node stand in earlier layers.
abbrev pub Precedes : {N : Type 0} → Graph N → List ℕ → List (List ℕ) → Type 0
Precedes g done [] = Unit
Precedes g done (layer ∷ layers) =
    All (λ v. (u : ℕ) → u < length g.nodes → 0 < edges_to g.dependents v u → 0 < count u done) layer
    × Precedes g (done ++ layer) layers

pub record IsLayering {N : Type 0} (g : Graph N) (layers : List (List ℕ)) : Type 0 where
  pub once : (v : ℕ) → v < length g.nodes → count v (concat layers) ≡ 1
  pub only : All (λ v. v < length g.nodes) (concat layers)
  pub precedes : Precedes g [] layers

module _ {N : Type 0} (g : Graph N) (s : IsShaped g) where
  abbrev n : ℕ
  n = length g.nodes

  abbrev End : Type 0
  End = Ends n g.dependents s.targets (layering g)

  layering-Ends : End
  unfolding layering
  layering-Ends =
      rounds-Ends n g.dependents s.targets (suc n) (zeros n 0 g.dependency_counts)
        g.dependency_counts [] 0 (omega arith)
        (record {
          same_length = sym s.counts_length;
          left_over = λ v l. omega (arith, s.counted v l, weight-nil n (edges_to g.dependents v));
          known = λ v l. ground (arith, l, count-zeros v n 0 g.dependency_counts);
          done_inside = tt;
          ready_inside = zeros-All n 0 n g.dependency_counts (omega arith);
          visited_count = refl;
          ordered = tt;
        })

  abbrev layers : List (List ℕ)
  layers = (layering g).0

  done-IsSparse : IsSparse n (concat layers)
  done-IsSparse =
      (done_le n g.dependents s.targets [] layering-Ends.0 layers (layering g).1 layering-Ends.1).1

  -- A node that is not done has an edge from a node that is not done.
  blocked :
      (v : ℕ)
      → v < n
      → count v (concat layers) ≡ 0
      → (u : ℕ) × (u < n) × (count u (concat layers) ≡ 0) × (0 < edges_to g.dependents v u)
  blocked v l c =
      missing_weight n (edges_to g.dependents v) (concat layers) done-IsSparse
        (ground (arith, c, layering-Ends.1.known v l, layering-Ends.1.left_over v l))

  none_blocked : (a : IsAcyclic g) (k v : ℕ) → a.0 v < k → v < n → count v (concat layers) ≡ 0 → ⊥
  none_blocked a zero v h l c = omega (arith, h)
  none_blocked a (suc k) v h l c =
      let b = blocked v l c in none_blocked a k b.0 (omega (arith, h, a.1 b.0 v b.1 l b.3)) b.1 b.2

  all_done : IsAcyclic g → (layering g).1 ≡ n
  all_done a = elim (Bool-cases (ltb (weight n one (concat layers)) (total n one))) [
    | inl h ↦
        let m = missing_weight n one (concat layers) done-IsSparse (ltb→lt _ _ h) in
        absurd (none_blocked a (suc (a.0 m.0)) m.0 (omega arith) m.1 m.2)
    | inr h ↦ ground (
      arith,
      h,
      total-one n,
      length-weight n (concat layers) layering-Ends.1.done_inside,
      layering-Ends.1.visited_count,
      (done_le n g.dependents s.targets [] layering-Ends.0 layers (layering g).1 layering-Ends.1).0,
    )
  ]

  Precedes-of :
      (ls : List (List ℕ)) (done : List ℕ)
      → IsSparse n (done ++ concat ls)
      → Ordered n g.dependents s.targets done ls
      → Precedes g done ls
  Precedes-of [] done p o = tt
  Precedes-of (l ∷ ls) done p o = (
    All-map (λ v. from n g.dependents s.targets done v ≡ from_all n g.dependents s.targets v) _ l
        (λ v q u i e.
          full_weight n (edges_to g.dependents v) done u
            (λ w j. omega (arith, count-append w done (l ++ concat ls), p w j)) (omega (arith, q)) i
            e)
        o.0,
    Precedes-of ls (done ++ l)
        (subst (λ (t : List ℕ). IsSparse n t) (sym (append_assoc done l (concat ls))) p) o.1,
  )

  IsLayering-of : (layering g).1 ≡ n → IsLayering g layers
  IsLayering-of e = record {
    once = λ v l.
        let p =
          full_weight n one (concat layers) v done-IsSparse
            (omega (
              arith,
              total-one n,
              length-weight n (concat layers) layering-Ends.1.done_inside,
              layering-Ends.1.visited_count,
              e,
            ))
            l (omega arith) in
        omega (arith, p, done-IsSparse v l);
    only = layering-Ends.1.done_inside;
    precedes = Precedes-of layers [] done-IsSparse layering-Ends.1.ordered;
  }

-- The number of the first layer that holds a node.
unfoldable pub layer_of : List (List ℕ) → ℕ → ℕ
layer_of [] v = 0
layer_of (l ∷ ls) v = if count v l == 0 then suc (layer_of ls v) else 0

layer_of_raises :
    {N : Type 0} (g : Graph N) (ls : List (List ℕ)) (done : List ℕ) (u v : ℕ)
    → Precedes g done ls
    → u < length g.nodes
    → 0 < edges_to g.dependents v u
    → 0 < count v (concat ls)
    → count u done ≡ 0
    → layer_of ls u < layer_of ls v
unfolding layer_of
layer_of_raises g [] done u v p l e c d = absurd (omega arith)
layer_of_raises g (x ∷ xs) done u v p l e c d = elim (Bool-cases (count v x == 0)) [
  | inr h ↦ absurd (
      let q =
        All-at
          (λ w. (u : ℕ) → u < length g.nodes → 0 < edges_to g.dependents w u → 0 < count u done) x v
          p.0 (ground (arith, h)) in
      omega (arith, d, q u l e))
  | inl h ↦ elim (Bool-cases (count u x == 0)) [
    | inr k ↦ rw (h, k) (omega arith)
    | inl k ↦
        rw (h, k)
          (let r =
              layer_of_raises g xs (done ++ x) u v p.1 l e
                (ground (arith, h, count-append v x (concat xs)))
                (ground (arith, k, d, count-append u done x)) in
            omega (arith, r))
  ]
]

-- Layers give a rank.
IsLayering-IsAcyclic :
    {N : Type 0} (g : Graph N) (ls : List (List ℕ)) → IsLayering g ls → IsAcyclic g
IsLayering-IsAcyclic g ls h = (
  layer_of ls,
  λ u v i j e. layer_of_raises g ls [] u v h.precedes i e (omega (arith, h.once v j)) refl,
)

-- In a graph whose counters agree with its edges, all nodes are visited exactly when there is no
-- cycle, and the layers then hold each node once, behind all nodes that have an edge to it.
pub layering-IsAcyclic :
    {N : Type 0} (g : Graph N)
    → IsShaped g
    → (((layering g).1 ≡ length g.nodes) ↔ IsAcyclic g)
      × ((layering g).1 ≡ length g.nodes → IsLayering g (layering g).0)
layering-IsAcyclic g s = (
  (λ e. IsLayering-IsAcyclic g (layering g).0 (IsLayering-of g s e), all_done g s),
  IsLayering-of g s,
)
