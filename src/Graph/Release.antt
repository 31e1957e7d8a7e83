-- ===== src/Graph/Release.antt =====
-- The counting down in utils/execution_graph/dependency_graph.hpp: what the loops over the dependents
-- of a layer do to each counter, and which nodes become ready.
use puc.Base.{
  ℕ, zero, suc, ◌+◌, ◌≤◌, ◌<◌, ◌≡◌, refl, sym, subst, ◌∙◌, Bool, true, false, List, [], ◌∷◌, ◌++◌,
  arith, ◌==◌, if◌then◌else◌, length, get_or, set, All, length-set, All-append,
}
use puc.Base.Sorting.{count, count-append}
use puc.Graph.{release, release_all, pred_size}
use puc.Graph.Weight.{weight, weight-cons, weight-nil}

-- The number of edges from one node to another.
abbrev pub edges_to : List (List ℕ) → ℕ → ℕ → ℕ
edges_to dependents v u = count v (get_or dependents u [])

-- 1 when a counter reaches zero.
abbrev pub reached : ℕ → ℕ → ℕ
reached before after = if before == 0 then 0 else if after == 0 then 1 else 0

-- The outcome for each counter below the length: lowered by the edges, and ready once when it gets
-- to zero.
pub record Lowered (edges : ℕ → ℕ) (remaining next : List ℕ) (r : List ℕ × List ℕ) : Type 0 where
  pub lowered : (v : ℕ) → v < length remaining → get_or r.0 v 0 + edges v ≡ get_or remaining v 0
  pub ready :
      (v : ℕ)
      → v < length remaining
      → count v r.1 ≡ count v next + reached (get_or remaining v 0) (get_or r.0 v 0)
  pub inside : All (λ v. v < length remaining) next → All (λ v. v < length remaining) r.1
  pub same_length : length r.0 ≡ length remaining

-- No counter is lowered below zero.
abbrev pub Enough : (ℕ → ℕ) → List ℕ → Type 0
Enough edges remaining = (v : ℕ) → v < length remaining → edges v ≤ get_or remaining v 0

-- One lowering after another.
Lowered-trans :
    (e1 e2 e : ℕ → ℕ) (remaining next : List ℕ) (m r : List ℕ × List ℕ)
    → ((v : ℕ) → e v ≡ e1 v + e2 v)
    → Lowered e1 remaining next m
    → Lowered e2 m.0 m.1 r
    → Lowered e remaining next r
Lowered-trans e1 e2 e remaining next m r s a b = record {
  lowered = λ v l. omega (arith, s v, a.lowered v l, b.lowered v (omega (arith, l, a.same_length)));
  ready = λ v l. ground (
    arith,
    s v,
    a.lowered v l,
    b.lowered v (omega (arith, l, a.same_length)),
    a.ready v l,
    b.ready v (omega (arith, l, a.same_length)),
  );
  inside = λ i.
      subst (λ (n : ℕ). All (λ v. v < n) r.1) a.same_length
        (b.inside (subst (λ (n : ℕ). All (λ v. v < n) m.1) (sym a.same_length) (a.inside i)));
  same_length = b.same_length ∙ a.same_length;
}

-- What is left is enough for what is to come.
Enough-rest :
    (e1 e2 e : ℕ → ℕ) (remaining next : List ℕ) (m : List ℕ × List ℕ)
    → ((v : ℕ) → e v ≡ e1 v + e2 v)
    → Lowered e1 remaining next m
    → Enough e remaining
    → Enough e2 m.0
Enough-rest e1 e2 e remaining next m s a h v l =
    let k : v < length remaining = omega (arith, l, a.same_length) in
    omega (arith, s v, a.lowered v k, h v k)

-- The two lines on one dependent.
abbrev lower : ℕ → List ℕ → List ℕ → List ℕ × List ℕ
lower d remaining next =
    let c = pred_size (get_or remaining d 0) in
    (set remaining d c, if c == 0 then next ++ (d ∷ []) else next)

get_or-set :
    (xs : List ℕ) (i v c : ℕ)
    → i < length xs
    → get_or (set xs i c) v 0 ≡ (if i == v then c else get_or xs v 0)
get_or-set [] i v c l = absurd (omega arith)
get_or-set (x ∷ xs) zero zero c l = refl
get_or-set (x ∷ xs) zero (suc v) c l = ground arith
get_or-set (x ∷ xs) (suc i) zero c l = ground arith
get_or-set (x ∷ xs) (suc i) (suc v) c l = ground (arith, get_or-set xs i v c (omega (arith, l)))

if-All :
    (P : ℕ → Type 0) (b : Bool) (xs : List ℕ) (d : ℕ)
    → P d
    → All P xs
    → All P (if b then xs ++ (d ∷ []) else xs)
if-All P true xs d p a = All-append P xs (d ∷ []) a (p, tt)
if-All P false xs d p a = a

lower-Lowered :
    (d : ℕ) (remaining next : List ℕ)
    → d < length remaining
    → 0 < get_or remaining d 0
    → Lowered (λ v. count v (d ∷ [])) remaining next (lower d remaining next)
lower-Lowered d remaining next i p = record {
  lowered = λ v l. ground (arith, p, get_or-set remaining d v (pred_size (get_or remaining d 0)) i);
  ready = λ v l. ground (
    arith,
    p,
    get_or-set remaining d v (pred_size (get_or remaining d 0)) i,
    count-append v next (d ∷ []),
  );
  inside =
      λ a. if-All (λ v. v < length remaining) (pred_size (get_or remaining d 0) == 0) next d i a;
  same_length = length-set remaining d (pred_size (get_or remaining d 0));
}

pub release-Lowered :
    (ds remaining next : List ℕ)
    → All (λ v. v < length remaining) ds
    → Enough (λ v. count v ds) remaining
    → Lowered (λ v. count v ds) remaining next (release ds remaining next)
unfolding release
release-Lowered [] remaining next i e = record {
  lowered = λ v l. omega arith;
  ready = λ v l. ground arith;
  inside = λ a. a;
  same_length = refl;
}
release-Lowered (d ∷ ds) remaining next i e =
    let m = lower d remaining next in
    let split = λ (v : ℕ). count-append v (d ∷ []) ds in
    let a = lower-Lowered d remaining next i.0 (ground (arith, e d i.0)) in
    Lowered-trans (λ v. count v (d ∷ [])) (λ v. count v ds) (λ v. count v (d ∷ ds)) remaining next m
      (release ds m.0 m.1) split a
      (release-Lowered ds m.0 m.1 (subst (λ (n : ℕ). All (λ v. v < n) ds) (sym a.same_length) i.1) (
        Enough-rest (λ v. count v (d ∷ [])) (λ v. count v ds) (λ v. count v (d ∷ ds)) remaining next
          m split a e))

pub release_all-Lowered :
    (dependents : List (List ℕ)) (us remaining next : List ℕ) (n : ℕ)
    → n ≡ length remaining
    → All (λ u. u < n) us
    → ((u : ℕ) → All (λ v. v < n) (get_or dependents u []))
    → Enough (λ v. weight n (edges_to dependents v) us) remaining
    → Lowered
        (λ v. weight n (edges_to dependents v) us)
        remaining
        next
        (release_all dependents us remaining next)
unfolding release_all
release_all-Lowered dependents [] remaining next n q i t e = record {
  lowered = λ v l. omega (arith, weight-nil n (edges_to dependents v));
  ready = λ v l. ground arith;
  inside = λ a. a;
  same_length = refl;
}
release_all-Lowered dependents (u ∷ us) remaining next n q i t e =
    let ds = get_or dependents u [] in
    let m = release ds remaining next in
    let e1 = λ (v : ℕ). count v ds in
    let e2 = λ (v : ℕ). weight n (edges_to dependents v) us in
    let all = λ (v : ℕ). weight n (edges_to dependents v) (u ∷ us) in
    let split = λ (v : ℕ). weight-cons n u (edges_to dependents v) us i.0 in
    let a =
      release-Lowered ds remaining next (subst (λ (k : ℕ). All (λ v. v < k) ds) q (t u))
        (λ v l. omega (arith, split v, e v l)) in
    Lowered-trans e1 e2 all remaining next m (release_all dependents us m.0 m.1) split a (
      release_all-Lowered dependents us m.0 m.1 n (q ∙ sym a.same_length) i.1 t
        (Enough-rest e1 e2 all remaining next m split a e))
