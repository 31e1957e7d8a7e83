-- ===== src/Ipc/Name/Segments.antt =====
-- The names that utils/ipc/channel.cpp accepts are two slashes and segments that slashes join.
use puc.Base.{
  All-map, false, ℕ, zero, suc, ◌≤◌, ◌<◌, ◌≡◌, refl, sym, ap, subst, ◌∙◌, ◌↔◌, inl, inr, true,
  false, Option, none, some, List, [], ◌∷◌, ◌++◌, arith, Bool-cases, Option-cases, length, All,
  length-append,
}
use puc.Base.Bytes.{Bytes}
use puc.Ipc.Name.{
  slash, valid_segment_byte, all_valid, valid_segment, split, valid_segments, ends_with_slash,
  after_slashes, valid_channel_name,
}
use puc.Ipc.Name.Permitted.{Passes, IsSegment, Passes-IsSegment, IsSegment-Passes}

-- The first segment, and the others with a slash in front of each.
unfoldable pub join : Bytes → List Bytes → Bytes
join segment [] = segment
join segment (next ∷ others) = segment ++ (slash ∷ join next others)

split_end : (segment : Bytes) → all_valid segment ≡ true → split segment ≡ (segment, none)
unfolding split valid_segment_byte
split_end [] h = refl
split_end (c ∷ cs) h = ground (arith, h, split_end cs)

split-slash :
    (segment rest : Bytes)
    → all_valid segment ≡ true
    → split (segment ++ (slash ∷ rest)) ≡ (segment, some rest)
unfolding split valid_segment_byte
split-slash [] rest h = refl
split-slash (c ∷ cs) rest h = ground (arith, h, split-slash cs rest)

all_valid_of : (segment : Bytes) → Passes segment → all_valid segment ≡ true
all_valid_of [] h = refl
all_valid_of (c ∷ cs) h = ground (arith, h)

split-none : (text segment : Bytes) → split text ≡ (segment, none) → text ≡ segment
unfolding split
split-none [] segment h = ground (arith, h)
split-none (c ∷ cs) segment h = ground (arith, h, split-none cs (split cs).0)

split-some :
    (text segment rest : Bytes)
    → split text ≡ (segment, some rest)
    → text ≡ segment ++ (slash ∷ rest)
unfolding split
split-some [] segment rest h = ground (arith, h)
split-some (c ∷ cs) segment rest h = ground (arith, h, split-some cs (split cs).0 rest)

-- The segments of a text.
abbrev pub Joins : Bytes → Type 0
Joins text =
    (first : Bytes) × (others : List Bytes) × Passes first
    × All Passes others
    × (text ≡ join first others)

valid_segments_sound : (fuel : ℕ) (text : Bytes) → valid_segments fuel text ≡ true → Joins text
unfolding valid_segments join
valid_segments_sound zero text h = absurd cc
valid_segments_sound (suc fuel) [] h = absurd cc
valid_segments_sound (suc fuel) (c ∷ cs) h =
    let s = split (c ∷ cs) in
    elim (Bool-cases (valid_segment s.0)) [
      | inr v ↦ absurd (ground (arith, v, h))
      | inl v ↦ elim (Option-cases s.1) [
        | inl e ↦ (s.0, [], v, tt, split-none (c ∷ cs) s.0 (ap (λ (o : Option Bytes). (s.0, o)) e))
        | inr (rest, e) ↦
            let r = valid_segments_sound fuel rest (ground (arith, v, e, h)) in
            (
              s.0,
              r.0 ∷ r.1,
              v,
              (r.2, r.3),
              split-some (c ∷ cs) s.0 rest (ap (λ (o : Option Bytes). (s.0, o)) e)
                  ∙ ap (λ (t : Bytes). s.0 ++ (slash ∷ t)) r.4,
            )
      ]
    ]

segment_step :
    (fuel : ℕ) (text segment rest : Bytes)
    → Passes segment
    → split text ≡ (segment, some rest)
    → valid_segments (suc fuel) text ≡ valid_segments fuel rest
unfolding valid_segments split
segment_step fuel [] segment rest v e = ground (arith, v, e)
segment_step fuel (c ∷ cs) segment rest v e = ground (arith, v, e)

segment_end :
    (fuel : ℕ) (text segment : Bytes)
    → Passes segment
    → split text ≡ (segment, none)
    → valid_segments (suc fuel) text ≡ true
unfolding valid_segments split
segment_end fuel [] segment v e = ground (arith, v, e)
segment_end fuel (c ∷ cs) segment v e = ground (arith, v, e)

valid_segments-join :
    (fuel : ℕ) (first : Bytes) (others : List Bytes)
    → Passes first
    → All Passes others
    → length others < fuel
    → valid_segments fuel (join first others) ≡ true
unfolding join
valid_segments-join zero first others v vs l = absurd (omega arith)
valid_segments-join (suc fuel) first [] v vs l =
    segment_end fuel first first v (split_end first (all_valid_of first v))
valid_segments-join (suc fuel) first (next ∷ others) v vs l =
    segment_step fuel (first ++ (slash ∷ join next others)) first (join next others) v
      (split-slash first (join next others) (all_valid_of first v))
    ∙ valid_segments-join fuel next others vs.0 vs.1 (omega (arith, l))

segment_length : (segment : Bytes) → Passes segment → 0 < length segment
segment_length [] v = absurd cc
segment_length (c ∷ cs) v = omega arith

length-join :
    (first : Bytes) (others : List Bytes)
    → Passes first
    → All Passes others
    → length others < length (join first others)
unfolding join
length-join first [] v vs = segment_length first v
length-join first (next ∷ others) v vs = omega (
  arith,
  length-append first (slash ∷ join next others),
  segment_length first v,
  length-join next others vs.0 vs.1,
)

ends_append : (a b : Bytes) → 0 < length b → ends_with_slash (a ++ b) ≡ ends_with_slash b
ends_append [] b l = refl
ends_append (x ∷ []) [] l = absurd (omega arith)
ends_append (x ∷ []) (y ∷ b) l = refl
ends_append (x ∷ y ∷ a) b l = ends_append (y ∷ a) b l

segment_ends : (segment : Bytes) → all_valid segment ≡ true → ends_with_slash segment ≡ false
unfolding valid_segment_byte
segment_ends [] h = refl
segment_ends (c ∷ []) h = ground (arith, h)
segment_ends (c ∷ d ∷ cs) h = ground (arith, h, segment_ends (d ∷ cs))

join_ends :
    (first : Bytes) (others : List Bytes)
    → Passes first
    → All Passes others
    → ends_with_slash (join first others) ≡ false
unfolding join
join_ends first [] v vs = segment_ends first (all_valid_of first v)
join_ends first (next ∷ others) v vs =
    ends_append first (slash ∷ join next others) (omega arith)
    ∙ ends_append (slash ∷ []) (join next others) (omega (arith, length-join next others vs.0 vs.1))
    ∙ join_ends next others vs.0 vs.1

-- A name is two slashes and joined segments, of 255 bytes at most.
abbrev pub IsName : Bytes → Type 0
IsName name =
    (first : Bytes) × (others : List Bytes) × IsSegment first
    × All IsSegment others
    × (name ≡ slash ∷ slash ∷ join first others)
    × (length name ≤ 255)

after_slashes_eq :
    (name text : Bytes) → after_slashes name ≡ some text → name ≡ slash ∷ slash ∷ text
after_slashes_eq [] text h = cc
after_slashes_eq (c ∷ []) text h = cc
after_slashes_eq (c ∷ d ∷ cs) text h = ground (arith, h)

IsName-sound : (name : Bytes) → valid_channel_name name ≡ true → IsName name
unfolding valid_channel_name
IsName-sound name h = elim (Option-cases (after_slashes name)) [
  | inl e ↦ absurd (ground (arith, e, h))
  | inr (text, e) ↦
      let j = valid_segments_sound (length text) text (ground (arith, e, h)) in
      (
        j.0,
        j.1,
        Passes-IsSegment j.0 j.2,
        All-map Passes IsSegment j.1 Passes-IsSegment j.3,
        after_slashes_eq name text e ∙ ap (λ (t : Bytes). slash ∷ slash ∷ t) j.4,
        ground (arith, h),
      )
]

IsName-complete :
    (text : Bytes)
    → Joins text
    → length (slash ∷ slash ∷ text) ≤ 255
    → valid_channel_name (slash ∷ slash ∷ text) ≡ true
unfolding valid_channel_name
IsName-complete text j l =
    let longer : length j.1 < length text =
      subst (λ (t : Bytes). length j.1 < length t) (sym j.4) (length-join j.0 j.1 j.2 j.3) in
    let ends : ends_with_slash (slash ∷ slash ∷ text) ≡ false =
      ends_append (slash ∷ slash ∷ []) text (omega (arith, longer))
      ∙ ap ends_with_slash j.4
      ∙ join_ends j.0 j.1 j.2 j.3 in
    let checked : valid_segments (length text) text ≡ true =
      ap (valid_segments (length text)) j.4
      ∙ valid_segments-join (length text) j.0 j.1 j.2 j.3 longer in
    rw (ends, checked) (ground (arith, l, longer))

-- `valid_channel_name` accepts exactly two slashes before slash-joined segments of letters, digits,
-- "_", "-" and ".", none of them empty, "." or "..", of 255 bytes in all at most.
pub valid_channel_name-IsName : (name : Bytes) → (valid_channel_name name ≡ true) ↔ IsName name
valid_channel_name-IsName name = (
  IsName-sound name,
  λ n.
      let joins : Joins (join n.0 n.1) = (
        n.0,
        n.1,
        IsSegment-Passes n.0 n.2,
        All-map IsSegment Passes n.1 IsSegment-Passes n.3,
        refl,
      ) in
      subst (λ (t : Bytes). valid_channel_name t ≡ true) (sym n.4)
        (IsName-complete (join n.0 n.1) joins (subst (λ (t : Bytes). length t ≤ 255) n.4 n.5)),
)
