-- ===== src/Timer/Tests.antt =====
-- Tests of the deadlines, and the theorems' witnesses.
use puc.Base.{ℕ, ◌≡◌, refl, none, some, List, [], ◌∷◌, ◌==◌, ==_iff, Eq}
use puc.Timer.{pending, no_token, synchronize, take_token_if_due, take_token, take_if_due, renew}
use puc.Timer.Generation.{
  Call, synchronizing, taking, call, run, has_token, run-pending, repeat, take_token-repeat,
}

instance abbrev number_eq : Eq ℕ
number_eq = record { beq = ◌==◌; beq_iff = ==_iff }

abbrev calls : List (Call ℕ)
calls = synchronizing (some 7) 10 100 ∷ taking 105 ∷ synchronizing (some 8) 10 106 ∷ []

new_token_waits : (take_token_if_due 115 (run calls no_token)).0 ≡ none
unfolding run call synchronize renew take_token take_if_due
new_token_waits = refl

run-pending_example : pending (run calls no_token).timer ≡ has_token (run calls no_token)
run-pending_example = run-pending calls

take_token-repeat_example :
    (take_token_if_due {T = ℕ} 110 (repeat 7 ((10, 100) ∷ (10, 105) ∷ []) no_token)).0 ≡ some 7
take_token-repeat_example = take_token-repeat 7 10 100 110 ((10, 105) ∷ [])
