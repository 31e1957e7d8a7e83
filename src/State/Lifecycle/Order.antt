-- ===== src/State/Lifecycle/Order.antt =====
-- Calls in a transitional phase, and where a failed stop ends.
use puc.Base.{
  Bool, true, false, ◌≡◌, inl, inr, refl, ap, List, [], ◌∷◌, ◌++◌, ℕ, arith, Bool-cases, some, none,
}
use puc.State.{
  AppState, is_ok, register_subsystem_erased, LifecycleState, uninitialized, initializing,
  initialized, starting, running, stopping, stopped, terminating, terminated, crashed,
}
use puc.State.Lifecycle.{
  Hooks, Result, initialize_in, start_in, stop_in, terminate_in, stop_layer, stop_started,
  then_layers,
}
use puc.State.Lifecycle.Preservation.{Call, register, initializes, starts, stops, terminates, call}

-- The phases that an operation holds while it runs hooks.
abbrev pub transitional : LifecycleState → Bool
transitional initializing = true
transitional starting = true
transitional stopping = true
transitional terminating = true
transitional _ = false

module _ {W : Type 0} (hooks : Hooks W) where
  -- In a transitional phase with the registry frozen every operation fails and changes nothing.
  pub call_refused :
      (c : Call) (app : AppState) (w : W)
      → transitional app.state ≡ true
      → app.frozen ≡ true
      → (is_ok (call hooks c app w).0 ≡ false)
        × ((call hooks c app w).1 ≡ app)
        × ((call hooks c app w).2 ≡ w)
  unfolding register_subsystem_erased initialize_in start_in stop_in terminate_in
  call_refused (register id none) app w t f = ground arith
  call_refused (register id (some sub)) app w t f = ground arith
  call_refused (initializes mode) app w t f = by_phase app.state t
    where
      by_phase :
          (s : LifecycleState)
          → transitional s ≡ true
          → (is_ok (initialize_in hooks s mode app w).0 ≡ false)
            × ((initialize_in hooks s mode app w).1 ≡ app)
            × ((initialize_in hooks s mode app w).2 ≡ w)
      by_phase uninitialized t = cc
      by_phase _ t = (refl, refl, refl)
  call_refused starts app w t f = by_phase app.state t
    where
      by_phase :
          (s : LifecycleState)
          → transitional s ≡ true
          → (is_ok (start_in hooks s app w).0 ≡ false)
            × ((start_in hooks s app w).1 ≡ app)
            × ((start_in hooks s app w).2 ≡ w)
      by_phase initialized t = cc
      by_phase stopped t = cc
      by_phase _ t = (refl, refl, refl)
  call_refused stops app w t f = by_phase app.state t
    where
      by_phase :
          (s : LifecycleState)
          → transitional s ≡ true
          → (is_ok (stop_in hooks s app w).0 ≡ false)
            × ((stop_in hooks s app w).1 ≡ app)
            × ((stop_in hooks s app w).2 ≡ w)
      by_phase uninitialized t = cc
      by_phase initialized t = cc
      by_phase stopped t = cc
      by_phase terminated t = cc
      by_phase running t = cc
      by_phase crashed t = cc
      by_phase _ t = (refl, refl, refl)
  call_refused terminates app w t f = by_phase app.state t
    where
      by_phase :
          (s : LifecycleState)
          → transitional s ≡ true
          → (is_ok (terminate_in hooks s app w).0 ≡ false)
            × ((terminate_in hooks s app w).1 ≡ app)
            × ((terminate_in hooks s app w).2 ≡ w)
      by_phase initializing t = (refl, refl, refl)
      by_phase starting t = (refl, refl, refl)
      by_phase stopping t = (refl, refl, refl)
      by_phase terminating t = (refl, refl, refl)
      by_phase _ t = cc

  blamed :
      (r rest : Result hooks)
      → is_ok r.0 ≡ true
      → is_ok (then_layers hooks false r rest).0 ≡ false
      → is_ok rest.0 ≡ false
  blamed r rest g h = ground arith

  -- A stop that fails in some layer ends there: no hook of a later layer, which holds the
  -- dependencies, is called.
  pub stop_started_halts :
      (before after : List (List ℕ)) (app : AppState) (w : W)
      → is_ok (stop_started hooks false before app w).0 ≡ false
      → stop_started hooks false (before ++ after) app w ≡ stop_started hooks false before app w
  unfolding stop_started
  stop_started_halts [] after app w h = cc
  stop_started_halts (layer ∷ layers) after app w h =
      let r = stop_layer hooks layer app w in
      elim (Bool-cases (is_ok r.0)) [
        | inr bad ↦ rw bad
        | inl good ↦ ap (then_layers hooks false r) (
            stop_started_halts layers after r.1 r.2
              (blamed r (stop_started hooks false layers r.1 r.2) good h))
      ]
