-- ===== src/Canvas/Address/RoundTrip.antt =====
-- Printing an address and parsing it back.
use puc.Base.{
  ℕ, zero, suc, ◌≤◌, ◌<◌, ◌≡◌, ◌≢◌, ◌⊎◌, inl, inr, refl, sym, ap, ◌∙◌, [], ◌∷◌, ◌++◌, append_assoc,
  append-nil, none, some, All, length, length-append, arith,
}
use puc.Base.Bytes.{Bytes}
use puc.Canvas.Address.{
  AddressComponent, TurnAddress, parse_component, segment, parse_from, parse, component_string,
  string_from, string,
}
use puc.Canvas.Address.Component.{IsValidComponent, Starts, component_string-Printed}

-- An address that names a turn.
pub record IsValidAddress (a : TurnAddress) : Type 0 where
  pub nonempty : a ≢ []
  pub components : All IsValidComponent a

-- The components behind the first one, as they are printed.
tail_string : TurnAddress → Bytes
tail_string [] = []
tail_string (c ∷ cs) = b'.' ∷ (component_string c ++ tail_string cs)

string_from-tail :
    (r : ℕ) (rs : Bytes) (cs : TurnAddress) → string_from (r ∷ rs) cs ≡ (r ∷ rs) ++ tail_string cs
unfolding string_from tail_string
string_from-tail r rs [] = sym (append-nil (r ∷ rs))
string_from-tail r rs (c ∷ cs) =
    string_from-tail r (rs ++ (b'.' ∷ component_string c)) cs
    ∙ append_assoc (r ∷ rs) (b'.' ∷ component_string c) (tail_string cs)

string-cons :
    (c : AddressComponent) (cs : TurnAddress)
    → IsValidComponent c
    → string (c ∷ cs) ≡ component_string c ++ tail_string cs
unfolding string string_from
string-cons c cs v = go (component_string c) (component_string-Printed c v).nonempty
  where
    go : (text : Bytes) → Starts (λ x. Unit {0}) text → string_from text cs ≡ text ++ tail_string cs
    go [] s = absurd s
    go (r ∷ rs) s = string_from-tail r rs cs

segment-end : (text : Bytes) → All (λ c. c ≢ b'.') text → segment text ≡ (text, none)
unfolding segment
segment-end [] h = refl
segment-end (c ∷ cs) (n, h) = ground (arith, segment-end cs h)

segment-dot :
    (text rest : Bytes)
    → All (λ c. c ≢ b'.') text
    → segment (text ++ (b'.' ∷ rest)) ≡ (text, some rest)
unfolding segment
segment-dot [] rest h = refl
segment-dot (c ∷ cs) rest (n, h) = ground (arith, segment-dot cs rest h)

-- One round of the loop on a text that is not empty.
parse_from-end :
    (fuel : ℕ) (text : Bytes) (done : TurnAddress) (c : AddressComponent)
    → Starts (λ x. Unit {0}) text
    → segment text ≡ (text, none)
    → parse_component text ≡ some c
    → parse_from (suc fuel) text done ≡ some (done ++ (c ∷ []))
unfolding parse_from
parse_from-end fuel [] done c s e p = absurd s
parse_from-end fuel (x ∷ xs) done c s e p = rw (e, p, e, parse_from)

parse_from-dot :
    (fuel : ℕ) (front rest : Bytes) (done : TurnAddress) (c : AddressComponent)
    → Starts (λ x. Unit {0}) front
    → segment (front ++ (b'.' ∷ rest)) ≡ (front, some rest)
    → parse_component front ≡ some c
    → parse_from (suc fuel) (front ++ (b'.' ∷ rest)) done ≡ parse_from fuel rest (done ++ (c ∷ []))
unfolding parse_from
parse_from-dot fuel [] rest done c s e p = absurd s
parse_from-dot fuel (x ∷ xs) rest done c s e p = rw (e, p, e, parse_from)

-- The two ends of a text that `parse` takes for the same address.
abbrev IsEnd : Bytes → Type 0
IsEnd e = (e ≡ []) ⊎ (e ≡ b'.' ∷ [])

parse_from-nil : (fuel : ℕ) (done : TurnAddress) → parse_from fuel [] done ≡ some done
unfolding parse_from
parse_from-nil zero done = refl
parse_from-nil (suc fuel) done = refl

last_round :
    (fuel : ℕ) (c : AddressComponent) (done : TurnAddress) {e : Bytes}
    → IsEnd e
    → IsValidComponent c
    → parse_from (suc fuel) (component_string c ++ e) done ≡ some (done ++ (c ∷ []))
last_round fuel c done (inl e) v =
    let p = component_string-Printed c v in
    rw (e, append-nil)
      (parse_from-end fuel (component_string c) done c p.nonempty
        (segment-end (component_string c) p.dotless) p.parses)
last_round fuel c done (inr e) v =
    let p = component_string-Printed c v in
    rw e (
      parse_from-dot fuel (component_string c) [] done c p.nonempty
        (segment-dot (component_string c) [] p.dotless) p.parses
      ∙ parse_from-nil fuel (done ++ (c ∷ [])))

parse_from-string :
    (fuel : ℕ) (c : AddressComponent) (cs done : TurnAddress) {e : Bytes}
    → length cs < fuel
    → IsEnd e
    → All IsValidComponent (c ∷ cs)
    → parse_from fuel (component_string c ++ (tail_string cs ++ e)) done ≡ some (done ++ (c ∷ cs))
unfolding tail_string
parse_from-string zero c cs done h end v = absurd (omega arith)
parse_from-string (suc fuel) c [] done h end v = last_round fuel c done end v.0
parse_from-string (suc fuel) c (d ∷ ds) done {e} h end v =
    let p = component_string-Printed c v.0 in
    let rest = component_string d ++ (tail_string ds ++ e) in
    rw (append_assoc (component_string d) (tail_string ds) e) (
      parse_from-dot fuel (component_string c) rest done c p.nonempty
        (segment-dot (component_string c) rest p.dotless) p.parses
      ∙ parse_from-string fuel d ds (done ++ (c ∷ [])) (omega arith) end v.1
      ∙ ap some (append_assoc done (c ∷ []) (d ∷ ds)))

length-tail_string : (cs : TurnAddress) → length cs ≤ length (tail_string cs)
unfolding tail_string
length-tail_string [] = omega arith
length-tail_string (c ∷ cs) =
    omega (arith, length-append (component_string c) (tail_string cs), length-tail_string cs)

parse-string_end :
    (a : TurnAddress) {e : Bytes} → IsEnd e → IsValidAddress a → parse (string a ++ e) ≡ some a
unfolding parse
parse-string_end [] end v = absurd (v.nonempty refl)
parse-string_end (c ∷ cs) {e} end v =
    rw (string-cons c cs v.components.0, append_assoc (component_string c) (tail_string cs) e)
      (go (component_string c) (component_string-Printed c v.components.0).nonempty
        (λ fuel h. parse_from-string fuel c cs [] h end v.components))
  where
    go :
        (text : Bytes)
        → Starts (λ x. Unit {0}) text
        → ((fuel : ℕ)
            → length cs < fuel
            → parse_from fuel (text ++ (tail_string cs ++ e)) [] ≡ some (c ∷ cs))
        → parse (text ++ (tail_string cs ++ e)) ≡ some (c ∷ cs)
    go [] s loop = absurd s
    go (x ∷ xs) s loop = loop (suc (length (xs ++ (tail_string cs ++ e)))) (
        omega (
          arith,
          length-append xs (tail_string cs ++ e),
          length-append (tail_string cs) e,
          length-tail_string cs,
        ))

-- A printed address parses back to itself.
pub parse-string : (a : TurnAddress) → IsValidAddress a → parse (string a) ≡ some a
parse-string a v = ap parse (sym (append-nil (string a))) ∙ parse-string_end a (inl refl) v

-- So does one with a dot behind it: `parse` accepts two texts for each address, and `string`
-- gives back the one without the dot.
pub parse-trailing_dot :
    (a : TurnAddress) → IsValidAddress a → parse (string a ++ (b'.' ∷ [])) ≡ some a
parse-trailing_dot a v = parse-string_end a (inr refl) v
