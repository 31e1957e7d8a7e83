-- ===== src/Trie/Extension.antt =====
-- A new node of utils/containers/trie.hpp keeps the trie well formed and every lookup.
use puc.Base.{
  ℕ, zero, suc, ◌≤◌, ◌<◌, ◌≡◌, refl, sym, ap, ap₂, subst, ◌∙◌, ◌≢◌, inl, inr, Option, none, some,
  List, [], ◌∷◌, ◌++◌, arith, ltb, ◌==◌, if◌then◌else◌, ltb→lt, Bool-cases, length, get_or, All,
  All-map,
}
use puc.Trie.{TrieKey, TrieNode, lower_bound, insert_at, blank, key_at, find_child}
use puc.Trie.Search.{Sorted, scan_key}
use puc.Trie.Insertion.{All-insert_at, scan_key-insert_at, Sorted-insert_at}
use puc.Trie.Paths.{children_at, IsBelow, HasPaths, find_child-scan_key}
use puc.Trie.Growth.{
  scan_key_agree, Sorted-agree, after, position, length-append_child, key_at-append_child, grown,
  key_of_old, key_of_new, children_grown, children_of_parent, children_of_other,
}

pub get_or_past {ℓ} : {A : Type ℓ} (xs : List A) (i : ℕ) (d : A) → length xs ≤ i → get_or xs i d ≡ d
get_or_past [] i d h = refl
get_or_past (x ∷ xs) zero d h = absurd (omega arith)
get_or_past (x ∷ xs) (suc i) d h = get_or_past xs i d (omega arith)

module _ {ℓ κ} {K : Type ℓ} {V : Type κ} (o : TrieKey K) (dk : K) (dv : V)
    (nodes : List (TrieNode K V)) (path : ℕ → List K) (parent : ℕ) (key : K)
    (h : HasPaths o dk dv nodes path) (l : parent < length nodes)
    (miss : find_child o dk dv nodes parent key ≡ none) where
  abbrev size : ℕ
  size = length nodes

  abbrev grown_nodes : List (TrieNode K V)
  grown_nodes = after o dk dv nodes parent key

  abbrev pub grown_path : ℕ → List K
  grown_path i = if i == size then path parent ++ (key ∷ []) else path i

  path_of_old : (i : ℕ) → i < size → grown_path i ≡ path i
  path_of_old i b = ground (arith, b)

  inside : (i : ℕ) → All (λ c. c < size) (children_at o dk dv nodes i)
  inside i = All-map (IsBelow o dk dv nodes path i) _ _ (λ c t. t.0) (h.below i)

  old_children :
      (i : ℕ)
      → i < size
      → All (IsBelow o dk dv grown_nodes grown_path i) (children_at o dk dv nodes i)
  old_children i b =
      All-map (IsBelow o dk dv nodes path i) _ _
        (λ c t. (
          omega (arith, t.0, length-append_child o dk dv nodes parent key),
          path_of_old c t.0
              ∙ t.1
              ∙ ap₂ (λ (p : List K) (k : K). p ++ (k ∷ [])) (sym (path_of_old i b))
                  (sym (key_of_old o dk dv nodes parent key c t.0)),
          t.2,
        ))
        (h.below i)

  new_child : IsBelow o dk dv grown_nodes grown_path parent size
  new_child = (
    omega (arith, length-append_child o dk dv nodes parent key),
    ground arith
        ∙ ap₂ (λ (p : List K) (k : K). p ++ (k ∷ [])) (sym (path_of_old parent l))
            (sym (
              key_at-append_child o dk dv nodes parent key size
              ∙ key_of_new o dk dv nodes parent key)),
    l,
  )

  children_past : (i : ℕ) → size ≤ i → children_at o dk dv nodes i ≡ []
  children_past i b = ap (λ (n : TrieNode K V). n.children) (get_or_past nodes i (blank o dk dv) b)

  parents_children :
      children_at o dk dv grown_nodes parent
      ≡ insert_at (position o dk dv nodes parent key) size (children_at o dk dv nodes parent)
  parents_children =
      children_of_parent o dk dv nodes parent key l
      ∙ ap (insert_at (position o dk dv nodes parent key) size)
          (children_grown o dk dv nodes parent key parent)

  grown-IsBelow :
      (i : ℕ) → All (IsBelow o dk dv grown_nodes grown_path i) (children_at o dk dv grown_nodes i)
  grown-IsBelow i = elim (Bool-cases (parent == i)) [
    | inl e ↦
        let q : parent ≡ i = ground (arith, e) in
        subst
          (λ (j : ℕ).
            All (IsBelow o dk dv grown_nodes grown_path j) (children_at o dk dv grown_nodes j))
          q
          (subst (All (IsBelow o dk dv grown_nodes grown_path parent)) (sym parents_children) (
            All-insert_at _ (position o dk dv nodes parent key) size _ new_child
              (old_children parent l)))
    | inr e ↦
        subst (All (IsBelow o dk dv grown_nodes grown_path i))
          (sym (children_of_other o dk dv nodes parent key i (λ q. ground (arith, e, q))))
          (elim (Bool-cases (ltb i size)) [
            | inl b ↦ old_children i (ltb→lt i size b)
            | inr b ↦
                subst (All (IsBelow o dk dv grown_nodes grown_path i))
                  (sym (children_past i (ground (arith, b)))) tt
          ])
  ]

  abbrev grown_key : ℕ → K
  grown_key = key_at o dk dv (grown o dk dv nodes parent key)

  same_keys : (c : ℕ) → c < size → key_at o dk dv nodes c ≡ grown_key c
  same_keys c b =
      sym (key_of_old o dk dv nodes parent key c b) ∙ key_at-append_child o dk dv nodes parent key c

  grown_scan :
      (k : K)
      → scan_key o grown_key k (children_at o dk dv nodes parent)
        ≡ find_child o dk dv nodes parent k
  grown_scan k =
      sym (scan_key_agree o size (key_at o dk dv nodes) grown_key same_keys k _ (inside parent))
      ∙ sym (find_child-scan_key o dk dv nodes path parent k h l)

  grown_Sorted : Sorted o grown_key (children_at o dk dv nodes parent)
  grown_Sorted =
      Sorted-agree o size (key_at o dk dv nodes) grown_key same_keys _ (inside parent)
        (h.ascending parent)

  -- The place is sought among the children as they were.
  abbrev place : ℕ
  place = lower_bound (λ c. o.less (grown_key c) key) (children_at o dk dv nodes parent)

  position-place : position o dk dv nodes parent key ≡ place
  position-place =
      ap (lower_bound (λ c. o.less (grown_key c) key))
        (children_grown o dk dv nodes parent key parent)

  parents_place :
      children_at o dk dv grown_nodes parent
      ≡ insert_at place size (children_at o dk dv nodes parent)
  parents_place =
      parents_children
      ∙ ap (λ (n : ℕ). insert_at n size (children_at o dk dv nodes parent)) position-place

  grown_inside : (i : ℕ) → All (λ c. c < suc size) (children_at o dk dv grown_nodes i)
  grown_inside i =
      All-map (IsBelow o dk dv grown_nodes grown_path i) _ _
        (λ c t. omega (arith, t.0, length-append_child o dk dv nodes parent key)) (grown-IsBelow i)

  grown_ascending :
      (i : ℕ) → Sorted o (key_at o dk dv grown_nodes) (children_at o dk dv grown_nodes i)
  grown_ascending i =
      Sorted-agree o (suc size) grown_key (key_at o dk dv grown_nodes)
        (λ c b. sym (key_at-append_child o dk dv nodes parent key c)) _ (grown_inside i)
        (elim (Bool-cases (parent == i)) [
          | inl e ↦
              let q : parent ≡ i = ground (arith, e) in
              subst (λ (j : ℕ). Sorted o grown_key (children_at o dk dv grown_nodes j)) q
                (subst (Sorted o grown_key) (sym parents_place) (
                  Sorted-insert_at o grown_key size key _ (key_of_new o dk dv nodes parent key)
                    grown_Sorted (grown_scan key ∙ miss)))
          | inr e ↦
              subst (Sorted o grown_key)
                (sym (children_of_other o dk dv nodes parent key i (λ q. ground (arith, e, q))))
                (Sorted-agree o size (key_at o dk dv nodes) grown_key same_keys _ (inside i)
                  (h.ascending i))
        ])

  pub append_child-HasPaths : HasPaths o dk dv grown_nodes grown_path
  append_child-HasPaths = record {
    nonempty = omega (arith, length-append_child o dk dv nodes parent key);
    root_path = path_of_old 0 h.nonempty ∙ h.root_path;
    below = grown-IsBelow;
    ascending = grown_ascending;
  }

  -- The parent finds the new child, and what it found before.
  pub find_child_of_parent :
      (k : K)
      → find_child o dk dv grown_nodes parent k
        ≡ (if o.eq_key.beq key k then some size else find_child o dk dv nodes parent k)
  find_child_of_parent k =
      find_child-scan_key o dk dv grown_nodes grown_path parent k append_child-HasPaths
        (omega (arith, l, length-append_child o dk dv nodes parent key))
      ∙ scan_key_agree o (suc size) (key_at o dk dv grown_nodes) grown_key
          (λ c b. key_at-append_child o dk dv nodes parent key c) k _ (grown_inside parent)
      ∙ ap (scan_key o grown_key k) parents_place
      ∙ scan_key-insert_at o grown_key size key k _ (key_of_new o dk dv nodes parent key)
          grown_Sorted (grown_scan key ∙ miss)
      ∙ ap (λ (r : Option ℕ). if o.eq_key.beq key k then some size else r) (grown_scan k)

  -- Any other node finds what it found before; the new node finds nothing.
  pub find_child_of_other :
      (i : ℕ) (k : K)
      → parent ≢ i
      → i < suc size
      → find_child o dk dv grown_nodes i k
        ≡ scan_key o (key_at o dk dv nodes) k (children_at o dk dv nodes i)
  find_child_of_other i k n b =
      find_child-scan_key o dk dv grown_nodes grown_path i k append_child-HasPaths
        (omega (arith, b, length-append_child o dk dv nodes parent key))
      ∙ ap (scan_key o (key_at o dk dv grown_nodes) k)
          (children_of_other o dk dv nodes parent key i n)
      ∙ scan_key_agree o size (key_at o dk dv grown_nodes) (key_at o dk dv nodes)
          (key_of_old o dk dv nodes parent key) k _ (inside i)
