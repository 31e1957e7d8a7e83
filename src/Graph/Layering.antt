-- ===== src/Graph/Layering.antt =====
-- The rounds of the validation in utils/execution_graph/dependency_graph.hpp: what they keep, and
-- what the layers are when they end.
use puc.Base.{
  ℕ, zero, suc, ◌+◌, ◌≤◌, ◌<◌, ◌≡◌, sym, ap, subst, ◌∙◌, inl, inr, List, [], ◌∷◌, ◌++◌, append-nil,
  append_assoc, arith, ◌==◌, if◌then◌else◌, Bool-cases, length, get_or, concat, All, length-append,
  All-append,
}
use puc.Base.Sorting.{count, sort, count-append, count-sort, length-sort}
use puc.Graph.{release_all, rounds}
use puc.Graph.Weight.{
  weight, total, IsSparse, weight-append, weight-le-total, one, total-one, length-weight,
}
use puc.Graph.Release.{edges_to, Lowered, release_all-Lowered}

module _ (n : ℕ) (dependents : List (List ℕ))
    (targets : (u : ℕ) → All (λ v. v < n) (get_or dependents u [])) where
  -- The edges into a node from a list of nodes, and from all nodes.
  abbrev pub from : List ℕ → ℕ → ℕ
  from us v = weight n (edges_to dependents v) us

  abbrev pub from_all : ℕ → ℕ
  from_all v = total n (edges_to dependents v)

  -- Each node stands behind all the nodes that have an edge to it.
  abbrev pub Ordered : List ℕ → List (List ℕ) → Type 0
  Ordered done [] = Unit
  Ordered done (layer ∷ layers) =
      All (λ v. from done v ≡ from_all v) layer × Ordered (done ++ layer) layers

  Ordered-snoc :
      (layers : List (List ℕ)) (done layer : List ℕ)
      → Ordered done layers
      → All (λ v. from (done ++ concat layers) v ≡ from_all v) layer
      → Ordered done (layers ++ (layer ∷ []))
  Ordered-snoc [] done layer o a =
      (subst (λ (t : List ℕ). All (λ v. from t v ≡ from_all v) layer) (append-nil done) a, tt)
  Ordered-snoc (l ∷ ls) done layer o a = (
    o.0,
    Ordered-snoc ls (done ++ l) layer o.1 (
        subst (λ (t : List ℕ). All (λ v. from t v ≡ from_all v) layer)
          (sym (append_assoc done l (concat ls))) a),
  )

  -- Between rounds: each counter is the number of edges from nodes not yet done, and the nodes that
  -- are done or ready are those whose counter is zero.
  pub record Between (ready remaining : List ℕ) (layers : List (List ℕ)) (visited : ℕ)
      : Type 0 where
    pub same_length : n ≡ length remaining
    pub left_over : (v : ℕ) → v < n → get_or remaining v 0 + from (concat layers) v ≡ from_all v
    pub known :
        (v : ℕ)
        → v < n
        → count v (concat layers) + count v ready ≡ (if get_or remaining v 0 == 0 then 1 else 0)
    pub done_inside : All (λ v. v < n) (concat layers)
    pub ready_inside : All (λ v. v < n) ready
    pub visited_count : visited ≡ length (concat layers)
    pub ordered : Ordered [] layers

  concat-snoc :
      (layers : List (List ℕ)) (layer : List ℕ)
      → concat (layers ++ (layer ∷ [])) ≡ concat layers ++ layer
  concat-snoc [] layer = append-nil layer
  concat-snoc (l ∷ ls) layer =
      ap (λ (t : List ℕ). l ++ t) (concat-snoc ls layer) ∙ sym (append_assoc l (concat ls) layer)

  All-count : {P : ℕ → Type 0} (xs : List ℕ) → ((v : ℕ) → 0 < count v xs → P v) → All P xs
  All-count [] h = tt
  All-count {P} (x ∷ xs) h = (h x (ground arith), All-count xs (λ v l. h v (ground (arith, l))))

  pub count-All : (P : ℕ → Type 0) (xs : List ℕ) (v : ℕ) → All P xs → 0 < count v xs → P v
  count-All P [] v a l = absurd (omega arith)
  count-All P (x ∷ xs) v a l = elim (Bool-cases (x == v)) [
    | inl e ↦ subst P (ground (arith, e)) a.0
    | inr e ↦ count-All P xs v a.1 (ground (arith, e, l))
  ]

  module _ (r : ℕ) (rs remaining : List ℕ) (layers : List (List ℕ)) (visited : ℕ)
      (b : Between (r ∷ rs) remaining layers visited) where
    abbrev layer : List ℕ
    layer = sort (r ∷ rs)

    abbrev done : List ℕ
    done = concat layers

    abbrev outcome : List ℕ × List ℕ
    outcome = release_all dependents layer remaining []

    layer-All : All (λ v. v < n) layer
    layer-All = All-count layer (λ v l.
        count-All (λ v. v < n) (r ∷ rs) v b.ready_inside (omega (arith, l, count-sort v (r ∷ rs))))

    done-IsSparse : IsSparse n (done ++ layer)
    done-IsSparse v l =
        ground (arith, count-append v done layer, count-sort v (r ∷ rs), b.known v l)

    from_split : (v : ℕ) → from (done ++ layer) v ≡ from done v + from layer v
    from_split v = weight-append n (edges_to dependents v) done layer

    outcome-Lowered : Lowered (λ v. from layer v) remaining [] outcome
    outcome-Lowered =
        release_all-Lowered dependents layer remaining [] n b.same_length layer-All targets (λ v l.
          omega (
            arith,
            from_split v,
            weight-le-total n (edges_to dependents v) (done ++ layer) done-IsSparse,
            b.left_over v (omega (arith, l, b.same_length)),
          ))

    kept_order : All (λ v. from done v ≡ from_all v) layer
    kept_order = All-count layer (λ v l.
        let k = count-All (λ v. v < n) layer v layer-All l in
        ground (arith, l, count-sort v (r ∷ rs), b.known v k, b.left_over v k))

    known_after :
        (v : ℕ)
        → v < n
        → count v (done ++ layer) + count v outcome.1 ≡ (if get_or outcome.0 v 0 == 0 then 1 else 0)
    known_after v l = ground (
      arith,
      count-append v done layer,
      count-sort v (r ∷ rs),
      b.known v l,
      outcome-Lowered.lowered v (omega (arith, l, b.same_length)),
      outcome-Lowered.ready v (omega (arith, l, b.same_length)),
    )

    -- A round keeps what holds between rounds.
    round-Between : Between outcome.1 outcome.0 (layers ++ (layer ∷ [])) (visited + length layer)
    round-Between =
        let e = concat-snoc layers layer in
        record {
          same_length = b.same_length ∙ sym outcome-Lowered.same_length;
          left_over = λ v l. omega (
            arith,
            ap (λ (t : List ℕ). from t v) e,
            from_split v,
            b.left_over v l,
            outcome-Lowered.lowered v (omega (arith, l, b.same_length)),
          );
          known = λ v l. omega (arith, ap (count v) e, known_after v l);
          done_inside =
              subst (All (λ v. v < n)) (sym e)
                (All-append (λ v. v < n) done layer b.done_inside layer-All);
          ready_inside =
              subst (λ (k : ℕ). All (λ v. v < k) outcome.1) (sym b.same_length)
                (outcome-Lowered.inside tt);
          visited_count = omega (arith, b.visited_count, ap length e, length-append done layer);
          ordered = Ordered-snoc layers [] layer b.ordered kept_order;
        }

  -- No more nodes are done than there are.
  pub done_le :
      (ready remaining : List ℕ) (layers : List (List ℕ)) (visited : ℕ)
      → Between ready remaining layers visited
      → (length (concat layers) ≤ n) × IsSparse n (concat layers)
  done_le ready remaining layers visited b =
      let s : IsSparse n (concat layers) = λ v l. ground (arith, b.known v l) in
      (
        omega (
          arith,
          length-weight n (concat layers) b.done_inside,
          weight-le-total n one (concat layers) s,
          total-one n,
        ),
        s,
      )

  -- The end of the rounds, if the fuel is enough: no node is ready.
  abbrev pub Ends : List (List ℕ) × ℕ → Type 0
  Ends r = (remaining : List ℕ) × Between [] remaining r.0 r.1

  pub rounds-Ends :
      (fuel : ℕ) (ready remaining : List ℕ) (layers : List (List ℕ)) (visited : ℕ)
      → n < fuel + visited
      → Between ready remaining layers visited
      → Ends (rounds dependents fuel ready remaining layers visited)
  unfolding rounds
  rounds-Ends zero ready remaining layers visited f b =
      absurd (omega (arith, f, b.visited_count, (done_le ready remaining layers visited b).0))
  rounds-Ends (suc fuel) [] remaining layers visited f b = (remaining, b)
  rounds-Ends (suc fuel) (r ∷ rs) remaining layers visited f b =
      let layer = sort (r ∷ rs) in
      let s = release_all dependents layer remaining [] in
      rounds-Ends fuel s.1 s.0 (layers ++ (layer ∷ [])) (visited + length layer)
        (omega (arith, f, length-sort (r ∷ rs))) (round-Between r rs remaining layers visited b)
