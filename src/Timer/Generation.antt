-- ===== src/Timer/Generation.antt =====
-- The deadlines of utils/timer/deadline.hpp follow the producer's generations.
use puc.Base.{
  ℕ, ◌+◌, ◌≡◌, refl, Bool, true, false, Option, none, some, List, [], ◌∷◌, arith, leb,
  if◌then◌else◌, Eq,
}
use puc.Timer.{
  pending, take_if_due, TokenDeadline, no_token, cancel_token, renew, synchronize, take_token,
  take_token_if_due,
}

pub data Call {ℓ} (T : Type ℓ) : Type ℓ where
  synchronizing : Option T → ℕ → ℕ → Call T
  cancelling : Call T
  taking : ℕ → Call T

module _ {ℓ} {T : Type ℓ} ⦃e : Eq T⦄ where
  unfoldable pub call : Call T → TokenDeadline T → TokenDeadline T
  call (synchronizing token delay now) d = synchronize token delay now d
  call cancelling d = cancel_token d
  call (taking now) d = (take_token_if_due now d).1

  unfoldable pub run : List (Call T) → TokenDeadline T → TokenDeadline T
  unfolding call
  run [] d = d
  run (c ∷ cs) d = run cs (call c d)

  abbrev pub has_token : TokenDeadline T → Bool
  has_token d = elim d.token [ none ↦ false | some _ ↦ true ]

  call_keeps :
      (c : Call T) (d : TokenDeadline T)
      → pending d.timer ≡ has_token d
      → pending (call c d).timer ≡ has_token (call c d)
  unfolding call synchronize renew take_token take_if_due
  call_keeps (synchronizing none delay now) d h = refl
  call_keeps (synchronizing (some token) delay now) d h = ground (arith, h)
  call_keeps cancelling d h = refl
  call_keeps (taking now) d h = ground (arith, h)

  run_keeps :
      (cs : List (Call T)) (d : TokenDeadline T)
      → pending d.timer ≡ has_token d
      → pending (run cs d).timer ≡ has_token (run cs d)
  unfolding run
  run_keeps [] d h = h
  run_keeps (c ∷ cs) d h = run_keeps cs (call c d) (call_keeps c d h)

  -- After every history of calls on a fresh object, a deadline is armed exactly when a token is held.
  pub run-pending :
      (calls : List (Call T)) → pending (run calls no_token).timer ≡ has_token (run calls no_token)
  run-pending calls = run_keeps calls no_token refl

  -- Synchronizing again and again with one token, at any times and delays.
  unfoldable pub repeat : T → List (ℕ × ℕ) → TokenDeadline T → TokenDeadline T
  repeat token [] d = d
  repeat token (s ∷ ss) d = repeat token ss (synchronize (some token) s.0 s.1 d)

  abbrev armed : T → ℕ → TokenDeadline T
  armed token time = record { token = some token; timer = record { deadline = some time } }

  repeat-armed :
      (token : T) (time : ℕ) (ss : List (ℕ × ℕ))
      → repeat token ss (armed token time) ≡ armed token time
  unfolding repeat synchronize renew
  repeat-armed token time [] = refl
  repeat-armed token time (s ∷ ss) =
      ground (arith, repeat-armed token time ss, e.beq_iff token token)

  -- From no token, a token that is synchronized at a time with a delay and then any number of times
  -- again is taken at a time exactly when that time has reached the first time and delay.
  pub take_token-repeat :
      (token : T) (delay start now : ℕ) (ss : List (ℕ × ℕ))
      → (take_token_if_due now (repeat token ((delay, start) ∷ ss) no_token)).0
        ≡ (if leb (start + delay) now then some token else none)
  unfolding repeat synchronize renew take_token take_if_due
  take_token-repeat token delay start now ss = ground (arith, repeat-armed token (start + delay) ss)
