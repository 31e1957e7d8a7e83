-- ===== src/Canvas/Turns/Passing.antt =====
-- The ordinals that a counter of canvas/turn/turn_tree.cpp has passed.
use puc.Base.{ℕ, ◌≤◌, ◌<◌, ◌≡◌, ◌≢◌, ◌⊎◌, inl, inr, arith, ◌==◌, Bool-cases}
use puc.Canvas.Turns.{advance_past, after_ordinal, u32_max}

-- A counter never gives an ordinal that it has passed.
abbrev pub IsPassed : ℕ → ℕ → Type 0
IsPassed next ordinal = (next ≡ 0) ⊎ (ordinal < next)

-- What a counter can become.
abbrev pub Advances : ℕ → ℕ → Type 0
Advances old next = (next ≡ old) ⊎ ((next ≡ 0) ⊎ ((old ≢ 0) × (old ≤ next)))

pub IsPassed-Advances :
    (old next ordinal : ℕ) → Advances old next → IsPassed old ordinal → IsPassed next ordinal
IsPassed-Advances old next ordinal (inl e) p = ground (arith, e, p)
IsPassed-Advances old next ordinal (inr (inl e)) p = inl e
IsPassed-Advances old next ordinal (inr (inr (n, l))) (inl z) = absurd (n z)
IsPassed-Advances old next ordinal (inr (inr (n, l))) (inr p) = inr (omega (arith, l, p))

pub after_ordinal-Advances : (ordinal : ℕ) → ordinal ≢ 0 → Advances ordinal (after_ordinal ordinal)
after_ordinal-Advances ordinal n = elim (Bool-cases (ordinal == u32_max)) [
  | inl e ↦ inr (inl (ground (arith, e)))
  | inr e ↦ inr (inr (n, ground (arith, e)))
]

pub after_ordinal-IsPassed : (ordinal : ℕ) → IsPassed (after_ordinal ordinal) ordinal
after_ordinal-IsPassed ordinal = ground arith

pub after_ordinal-bound : (ordinal : ℕ) → ordinal ≤ u32_max → after_ordinal ordinal ≤ u32_max
after_ordinal-bound ordinal h = ground (arith, h)

-- A counter that is advanced past an ordinal has passed it, and what it had passed.
pub advance_past-Advances : (next ordinal : ℕ) → Advances next (advance_past next ordinal)
unfolding advance_past
advance_past-Advances next ordinal = ground arith

pub advance_past-IsPassed : (next ordinal : ℕ) → IsPassed (advance_past next ordinal) ordinal
unfolding advance_past
advance_past-IsPassed next ordinal = ground arith

pub advance_past-bound :
    (next ordinal : ℕ) → next ≤ u32_max → ordinal ≤ u32_max → advance_past next ordinal ≤ u32_max
unfolding advance_past
advance_past-bound next ordinal h l = ground (arith, h, l)
