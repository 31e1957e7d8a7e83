-- ===== src/Timer.antt =====
-- utils/timer/deadline.hpp: a one-shot deadline, and the deadline of a producer's current token. A
-- time point and a duration are numbers of ticks, and the caller passes the clock's time.
mod Tests
pub mod Generation
use puc.Base.{
  ℕ, zero, suc, ◌+◌, ◌-◌, ◌*◌, ◌/◌, ◌%◌, ◌^◌, ◌≤◌, ◌<◌, ◌≡◌, refl, sym, ap, ap₂, subst, ◌∙◌, ◌≢◌,
  ◌↔◌, ◌⊎◌, inl, inr, Bool, true, false, not, ◌&&◌, ◌||◌, Option, none, some, List, [], ◌∷◌, ◌++◌,
  map, reverse, append-nil, append_assoc, reverse-append, reverse-cons, arith, ltb, leb, ◌==◌,
  if◌then◌else◌, ltb→lt, lt→ltb, leb→le, ==_iff, Bool-cases, Option-cases, and-eq-true, length,
  get_elem?, get_or, set, take, drop, concat, All, length-append, length-reverse, length-set,
  get_or-set_self, get_or-set_ne, get_or-append_left, get_or-append_length, All-append, All-map,
  lookup, contains, emplace, modify, Eq, lookup-append, lookup-emplace, lookup-modify,
}
use puc.Base.Sorting.{count, sort, count-append, count-sort, length-sort}
use puc.Base.Bytes.{Bytes, bytes_eq, bytes_eq_refl, bytes_eq_iff, bytes}

pub record Deadline : Type 0 where
  pub deadline : Option ℕ

abbrev pub idle : Deadline
idle = record { deadline = none }

abbrev pub arm : ℕ → ℕ → Deadline → Deadline
arm delay now d = record { deadline = some (now + delay) }

abbrev pub cancel : Deadline → Deadline
cancel d = idle

abbrev pub pending : Deadline → Bool
pending d = elim d.deadline [ none ↦ false | some _ ↦ true ]

abbrev pub due : ℕ → Deadline → Bool
due now d = elim d.deadline [ none ↦ false | some time ↦ leb time now ]

unfoldable pub take_if_due : ℕ → Deadline → Bool × Deadline
take_if_due now d = if due now d then (true, idle) else (false, d)

pub record TokenDeadline {ℓ} (T : Type ℓ) : Type ℓ where
  pub token : Option T
  pub timer : Deadline

module _ {ℓ} {T : Type ℓ} ⦃e : Eq T⦄ where
  abbrev pub no_token : TokenDeadline T
  no_token = record { token = none; timer = idle }

  abbrev pub cancel_token : TokenDeadline T → TokenDeadline T
  cancel_token d = record { token = none; timer = cancel d.timer }

  -- The token that is kept is the same; a new one arms the deadline again.
  unfoldable pub renew : Option T → T → ℕ → ℕ → TokenDeadline T → TokenDeadline T
  renew none token delay now d = record { token = some token; timer = arm delay now d.timer }
  renew (some kept) token delay now d =
      if e.beq kept token then d else record { token = some token; timer = arm delay now d.timer }

  unfoldable pub synchronize : Option T → ℕ → ℕ → TokenDeadline T → TokenDeadline T
  synchronize none delay now d = cancel_token d
  synchronize (some token) delay now d = renew d.token token delay now d

  unfoldable pub take_token : Option T → ℕ → TokenDeadline T → Option T × TokenDeadline T
  take_token none now d = (none, d)
  take_token (some token) now d =
      let r = take_if_due now d.timer in
      if r.0
      then (some token, record { token = none; timer = r.1 })
      else (none, record d { timer = r.1 })

  abbrev pub take_token_if_due : ℕ → TokenDeadline T → Option T × TokenDeadline T
  take_token_if_due now d = take_token d.token now d
