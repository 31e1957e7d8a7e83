-- ===== src/Decoder/Fields.antt =====
-- `split_fields` of puc-cli/tui/terminal/decoder.cpp.
use puc.Base.{
  ℕ, zero, suc, ◌≤◌, ◌≡◌, refl, sym, ap, subst, ◌∙◌, ◌≢◌, ◌⊎◌, inl, inr, none, some, List, [], ◌∷◌,
  ◌++◌, arith, ◌==◌, Bool-cases, Option-cases, length, All,
}
use puc.Base.Bytes.{Bytes}
use mathlib.Core.Option.{some-injective}
use puc.Decoder.{cut, split_from, split_fields}

-- The fields with delimiters between them.
abbrev pub joined : ℕ → List Bytes → Bytes
joined delimiter [] = []
joined delimiter (f ∷ []) = f
joined delimiter (f ∷ g ∷ fs) = f ++ (delimiter ∷ joined delimiter (g ∷ fs))

-- What `cut` says of a text.
cut-IsCut :
    (delimiter : ℕ) (text : Bytes)
    → let s = cut delimiter text in
      All (λ c. c ≢ delimiter) s.0
      × (((s.1 ≡ none) × (text ≡ s.0))
          ⊎ ((rest : Bytes) × ((s.1 ≡ some rest) × (text ≡ s.0 ++ (delimiter ∷ rest)))))
unfolding cut
cut-IsCut delimiter [] = (tt, inl (refl, refl))
cut-IsCut delimiter (c ∷ cs) = elim (Bool-cases (c == delimiter)) [
  | inl b ↦ rw (cut, b) (tt, inr (cs, (refl, ap (λ (x : ℕ). x ∷ cs) (ground (arith, b)))))
  | inr b ↦
      let r = cut-IsCut delimiter cs in
      rw (cut, b)
        (
          ((λ q. ground (arith, b, q)), r.0),
          elim r.1 [
            | inl (m, e) ↦ inl (m, ap (λ (t : Bytes). c ∷ t) e)
            | inr (rest, (m, e)) ↦ inr (rest, (m, ap (λ (t : Bytes). c ∷ t) e))
          ],
        )
]

-- Fields of a text: joined they are the text, none has the delimiter, and they fit the array.
pub record IsSplit (maximum delimiter : ℕ) (text : Bytes) (fields : List Bytes) : Type 0 where
  pub whole : joined delimiter fields ≡ text
  pub pure : All (All (λ c. c ≢ delimiter)) fields
  pub fits : length fields ≤ maximum

joined-cons :
    (delimiter : ℕ) (f : Bytes) (fs : List Bytes)
    → fs ≢ []
    → joined delimiter (f ∷ fs) ≡ f ++ (delimiter ∷ joined delimiter fs)
joined-cons delimiter f [] n = absurd (n refl)
joined-cons delimiter f (g ∷ gs) n = refl

split_from-IsSplit :
    (maximum delimiter : ℕ) (text : Bytes) (fields : List Bytes)
    → split_from maximum delimiter text ≡ some fields
    → IsSplit maximum delimiter text fields × (fields ≢ [])
unfolding split_from
split_from-IsSplit zero delimiter text fields e = absurd (ground (arith, e))
split_from-IsSplit (suc n) delimiter text fields e =
    let s = cut delimiter text in
    let (free, shape) = cut-IsCut delimiter text in
    elim shape [
      | inl (m, t) ↦
          subst (λ (fs : List Bytes). IsSplit (suc n) delimiter text fs × (fs ≢ []))
            (some-injective (s.0 ∷ []) fields (ground (arith, m, e)))
            (
              record { whole = sym t; pure = (free, tt); fits = omega arith },
              λ q. omega (arith, ap length q),
            )
      | inr (rest, (m, t)) ↦ elim (Option-cases (split_from n delimiter rest)) [
        | inl k ↦ absurd (ground (arith, m, k, e))
        | inr (fs, k) ↦
            let (r, some_fields) = split_from-IsSplit n delimiter rest fs k in
            subst (λ (gs : List Bytes). IsSplit (suc n) delimiter text gs × (gs ≢ []))
              (some-injective (s.0 ∷ fs) fields (ground (arith, m, k, e)))
              (
                record {
                  whole =
                      joined-cons delimiter s.0 fs some_fields
                      ∙ ap (λ (x : Bytes). s.0 ++ (delimiter ∷ x)) r.whole
                      ∙ sym t;
                  pure = (free, r.pure);
                  fits = omega (arith, r.fits);
                },
                λ q. omega (arith, ap length q),
              )
      ]
    ]

-- Fields that are split from a text, joined again with the delimiter, are the text; none has the
-- delimiter, and they are no more than the maximum.
pub split_fields-IsSplit :
    (maximum delimiter : ℕ) (text : Bytes) (fields : List Bytes)
    → split_fields maximum delimiter text ≡ some fields
    → IsSplit maximum delimiter text fields
unfolding split_fields
split_fields-IsSplit maximum delimiter [] fields e =
    subst (IsSplit maximum delimiter []) (some-injective [] fields e)
      (record { whole = refl; pure = tt; fits = omega arith })
split_fields-IsSplit maximum delimiter (c ∷ cs) fields e =
    (split_from-IsSplit maximum delimiter (c ∷ cs) fields e).0
