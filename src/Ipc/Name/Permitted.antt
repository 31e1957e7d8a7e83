-- ===== src/Ipc/Name/Permitted.antt =====
-- The segments that utils/ipc/channel.cpp accepts: their bytes, and the two that stand for
-- directories.
use puc.Base.{
  ◌≢◌, ◌&&◌, ◌==◌, Bool, leb, false, ℕ, ◌≤◌, ◌≡◌, refl, subst, inl, inr, true, false, [], ◌∷◌,
  arith, Bool-cases, All,
}
use puc.Base.Bytes.{Bytes, bytes_eq, bytes_eq_iff}
use puc.Ipc.Name.{valid_segment_byte, all_valid, valid_segment}

-- The segments that the check lets through.
abbrev pub Passes : Bytes → Type 0
Passes segment = valid_segment segment ≡ true

refuted : {b : Bool} → (b ≡ true → ⊥) → b ≡ false
refuted {b = true} h = absurd (h refl)
refuted {b = false} h = refl

-- A letter, a digit, "_", "-" or ".".
pub data IsPermitted : ℕ → Type 0 where
  lower_case : (c : ℕ) → b'a' ≤ c → c ≤ b'z' → IsPermitted c
  upper_case : (c : ℕ) → b'A' ≤ c → c ≤ b'Z' → IsPermitted c
  numeral : (c : ℕ) → b'0' ≤ c → c ≤ b'9' → IsPermitted c
  underscore : IsPermitted b'_'
  hyphen : IsPermitted b'-'
  dot : IsPermitted b'.'

-- A segment has permitted bytes only, at least one, and is neither "." nor "..".
pub record IsSegment (segment : Bytes) : Type 0 where
  pub nonempty : segment ≢ []
  pub not_here : segment ≢ b'.' ∷ []
  pub not_above : segment ≢ b'.' ∷ b'.' ∷ []
  pub permitted : All IsPermitted segment

valid_segment_byte-IsPermitted : (c : ℕ) → valid_segment_byte c ≡ true → IsPermitted c
unfolding valid_segment_byte
valid_segment_byte-IsPermitted c h = elim (Bool-cases (leb b'a' c && leb c b'z')) [
  | inl p ↦ lower_case c (ground (arith, p)) (ground (arith, p))
  | inr p ↦ elim (Bool-cases (leb b'A' c && leb c b'Z')) [
    | inl q ↦ upper_case c (ground (arith, q)) (ground (arith, q))
    | inr q ↦ elim (Bool-cases (leb b'0' c && leb c b'9')) [
      | inl r ↦ numeral c (ground (arith, r)) (ground (arith, r))
      | inr r ↦ elim (Bool-cases (c == b'_')) [
        | inl s ↦ subst IsPermitted (ground (arith, s)) underscore
        | inr s ↦ elim (Bool-cases (c == b'-')) [
          | inl t ↦ subst IsPermitted (ground (arith, t)) hyphen
          | inr t ↦ subst IsPermitted (ground (arith, p, q, r, s, t, h)) dot
        ]
      ]
    ]
  ]
]

IsPermitted-valid_segment_byte : (c : ℕ) → IsPermitted c → valid_segment_byte c ≡ true
unfolding valid_segment_byte
IsPermitted-valid_segment_byte c (lower_case _ l h) = ground (arith, l, h)
IsPermitted-valid_segment_byte c (upper_case _ l h) = ground (arith, l, h)
IsPermitted-valid_segment_byte c (numeral _ l h) = ground (arith, l, h)
IsPermitted-valid_segment_byte _ underscore = refl
IsPermitted-valid_segment_byte _ hyphen = refl
IsPermitted-valid_segment_byte _ dot = refl

all_valid-IsPermitted : (text : Bytes) → all_valid text ≡ true → All IsPermitted text
all_valid-IsPermitted [] h = tt
all_valid-IsPermitted (c ∷ cs) h =
    let v : valid_segment_byte c ≡ true = ground (arith, h) in
    (valid_segment_byte-IsPermitted c v, all_valid-IsPermitted cs (ground (arith, h)))

IsPermitted-all_valid : (text : Bytes) → All IsPermitted text → all_valid text ≡ true
IsPermitted-all_valid [] h = refl
IsPermitted-all_valid (c ∷ cs) h =
    ground (arith, IsPermitted-valid_segment_byte c h.0, IsPermitted-all_valid cs h.1)

pub Passes-IsSegment : (segment : Bytes) → Passes segment → IsSegment segment
unfolding bytes_eq
Passes-IsSegment [] h = absurd cc
Passes-IsSegment (c ∷ cs) h = record {
  nonempty = λ e. cc;
  not_here = λ e. ground (arith, h, (bytes_eq_iff (c ∷ cs) (46 ∷ [])).1 e);
  not_above = λ e. ground (arith, h, (bytes_eq_iff (c ∷ cs) (46 ∷ 46 ∷ [])).1 e);
  permitted = all_valid-IsPermitted (c ∷ cs) (ground (arith, h));
}

pub IsSegment-Passes : (segment : Bytes) → IsSegment segment → Passes segment
IsSegment-Passes [] s = absurd (s.nonempty refl)
IsSegment-Passes (c ∷ cs) s =
    let here : bytes_eq (c ∷ cs) (46 ∷ []) ≡ false =
      refuted (λ e. s.not_here ((bytes_eq_iff (c ∷ cs) (46 ∷ [])).0 e)) in
    let above : bytes_eq (c ∷ cs) (46 ∷ 46 ∷ []) ≡ false =
      refuted (λ e. s.not_above ((bytes_eq_iff (c ∷ cs) (46 ∷ 46 ∷ [])).0 e)) in
    rw (here, above) (IsPermitted-all_valid (c ∷ cs) s.permitted)
