-- ===== src/Tui/ZBuffer/Order.antt =====
-- The painting order that the operations of puc-cli/tui/rendering/zbuf.cpp keep.
use puc.Base.{◌≡◌, refl, Bool, true, false, none, some, List, [], ◌∷◌, ◌++◌, arith, if◌then◌else◌}
use puc.Base.Bytes.{Bytes, bytes_eq, bytes_eq_iff}
use puc.Tui.ZBuffer.{Entry, find_frame, erase_frame, found_last}

-- The frames of other names, in their order.
unfoldable pub others : Bytes → List Entry → List Entry
others id [] = []
others id (e ∷ es) = if bytes_eq e.frame_id id then others id es else e ∷ others id es

-- No name occurs twice.
unfoldable pub is_distinct : List Entry → Bool
is_distinct [] = true
is_distinct (e ∷ es) = elim (find_frame e.frame_id es) [ none ↦ is_distinct es | some _ ↦ false ]

-- Without the name, nothing is left out.
pub others_missing : (id : Bytes) (es : List Entry) → find_frame id es ≡ none → others id es ≡ es
unfolding others find_frame
others_missing id [] h = refl
others_missing id (e ∷ es) h = ground (arith, others_missing id es)

pub find_frame-name :
    (id : Bytes) (es : List Entry) (e : Entry)
    → find_frame id es ≡ some e
    → bytes_eq e.frame_id id ≡ true
unfolding find_frame
find_frame-name id [] e h = cc
find_frame-name id (x ∷ es) e h = ground (arith, find_frame-name id es e)

pub erase_frame-others :
    (id : Bytes) (es : List Entry) → is_distinct es ≡ true → erase_frame id es ≡ others id es
unfolding erase_frame others is_distinct
erase_frame-others id [] h = refl
erase_frame-others id (e ∷ es) h =
    ground (arith, erase_frame-others id es, others_missing id es, bytes_eq_iff e.frame_id id)

-- The last entry of the name, when the name is distinct, is what is brought to the front.
pub found_last-others :
    (id : Bytes) (es : List Entry) (e : Entry)
    → is_distinct es ≡ true
    → find_frame id es ≡ some e
    → found_last id es ≡ true
    → others id es ++ (e ∷ []) ≡ es
unfolding found_last others is_distinct find_frame
found_last-others id [] e d f h = cc
found_last-others id (x ∷ []) e d f h = ground arith
found_last-others id (x ∷ y ∷ es) e d f h = ground (arith, found_last-others id (y ∷ es) e)

find_frame-append :
    (id : Bytes) (xs ys : List Entry)
    → find_frame id (xs ++ ys)
      ≡ elim (find_frame id xs) [ none ↦ find_frame id ys | some e ↦ some e ]
unfolding find_frame
find_frame-append id [] ys = refl
find_frame-append id (x ∷ xs) ys = ground (arith, find_frame-append id xs ys)

pub is_distinct-snoc :
    (es : List Entry) (e : Entry)
    → find_frame e.frame_id es ≡ none
    → is_distinct es ≡ true
    → is_distinct (es ++ (e ∷ [])) ≡ true
unfolding is_distinct find_frame
is_distinct-snoc [] e f h = refl
is_distinct-snoc (x ∷ es) e f h = ground (
  arith,
  is_distinct-snoc es e,
  find_frame-append x.frame_id es (e ∷ []),
  bytes_eq_iff x.frame_id e.frame_id,
  bytes_eq_iff e.frame_id x.frame_id,
)

pub find_frame-others :
    (id j : Bytes) (es : List Entry)
    → find_frame j (others id es) ≡ (if bytes_eq id j then none else find_frame j es)
unfolding others find_frame
find_frame-others id j [] = ground arith
find_frame-others id j (e ∷ es) = ground (
  arith,
  find_frame-others id j es,
  bytes_eq_iff e.frame_id id,
  bytes_eq_iff e.frame_id j,
  bytes_eq_iff id j,
)

pub is_distinct-others :
    (id : Bytes) (es : List Entry) → is_distinct es ≡ true → is_distinct (others id es) ≡ true
unfolding others is_distinct
is_distinct-others id [] h = refl
is_distinct-others id (e ∷ es) h =
    ground (arith, is_distinct-others id es, find_frame-others id e.frame_id es)
