-- ===== src/State/Lifecycle/Reentry.antt =====
-- The hooks of state/state.cpp run only where a call back into the application is refused.
use puc.Base.{ℕ, ◌≡◌, refl, ap, ◌≢◌, inl, inr, true, false, List, [], ◌∷◌, Bool-cases, concat}
use puc.State.{
  AppState, OperatingMode, is_ok, LifecycleState, uninitialized, initializing, initialized,
  starting, running, stopped, crashed,
}
use puc.State.Topology.{build_topology}
use puc.State.Topology.Layers.{Cached, build_topology-Cached}
use puc.State.Lifecycle.{
  Hooks, entering, initialize_in, begin_initialize, start_in, stop_in, terminate_in,
  valid_operating_mode,
}
use puc.State.Lifecycle.Loops.{
  IsKept, keeps_initialize_all, keeps_start_all, keeps_finish_stop, keeps_finish_terminate,
}
use puc.State.Lifecycle.Invariant.{IsValid, frozen_of}
use puc.State.Lifecycle.Preservation.{
  Call, register, initializes, starts, stops, terminates, call, run, call-IsValid,
}
use puc.State.Lifecycle.Order.{transitional, call_refused}

module _ {W : Type 0} (hooks : Hooks W) where
  -- Every operation fails in this state, and changes neither the state nor the world.
  abbrev pub IsRefusing : AppState → Type 0
  IsRefusing app =
      (c : Call) (w : W)
      → (is_ok (call hooks c app w).0 ≡ false)
        × ((call hooks c app w).1 ≡ app)
        × ((call hooks c app w).2 ≡ w)

  -- Each hook keeps a property of the world when it runs in a state in which every operation is
  -- refused; of other states nothing is asked.
  pub record KeepsWhenRefused (Q : W → Type 0) : Type 0 where
    pub initialize :
        (id : ℕ) (app : AppState) (w : W) → IsRefusing app → Q w → Q (hooks.initialize id app w).1
    pub start :
        (id : ℕ) (app : AppState) (w : W) → IsRefusing app → Q w → Q (hooks.start id app w).1
    pub stop : (id : ℕ) (app : AppState) (w : W) → IsRefusing app → Q w → Q (hooks.stop id app w).1
    pub terminate :
        (id : ℕ) (app : AppState) (w : W) → IsRefusing app → Q w → Q (hooks.terminate id app w).1

  module _ (Q : W → Type 0) (k : KeepsWhenRefused Q) where
    abbrev Busy : AppState → W → Type 0
    Busy app w = (transitional app.state ≡ true) × (app.frozen ≡ true) × Q w

    refusing : (app : AppState) (w : W) → Busy app w → IsRefusing app
    refusing app w b c v = call_refused hooks c app v b.0 b.1

    kept : IsKept hooks Busy
    kept = record {
      write = λ id f app w b. b;
      initialize = λ id app w b. (b.0, b.1, k.initialize id app w (refusing app w b) b.2);
      start = λ id app w b. (b.0, b.1, k.start id app w (refusing app w b) b.2);
      stop = λ id app w b. (b.0, b.1, k.stop id app w (refusing app w b) b.2);
      terminate = λ id app w b. (b.0, b.1, k.terminate id app w (refusing app w b) b.2);
    }

    abbrev Ended : AppState → W → Type 0
    Ended app w = Q w

    ends : (s : LifecycleState) (app : AppState) (w : W) → Busy app w → Ended (entering s app) w
    ends s app w b = b.2

    built :
        (before after : AppState)
        → Cached before after
        → (after.state ≡ before.state) × (after.frozen ≡ before.frozen)
    built before after (inl e) =
        (ap (λ (a : AppState). a.state) e, ap (λ (a : AppState). a.frozen) e)
    built before after (inr (layers, e)) =
        (ap (λ (a : AppState). a.state) e, ap (λ (a : AppState). a.frozen) e)

    begin_initialize_busy :
        (mode : OperatingMode) (app : AppState) (w : W)
        → Q w
        → Q (begin_initialize hooks mode app w).2
    unfolding begin_initialize
    begin_initialize_busy mode app w q =
        let before = record app { frozen = true; mode = mode; state = initializing } in
        let t = build_topology before in
        let same = built before t.1 (build_topology-Cached before) in
        elim (Bool-cases (valid_operating_mode mode)) [
          | inr bad ↦ rw bad q
          | inl good ↦ elim (Bool-cases (is_ok t.0)) [
            | inr failed ↦ rw (good, failed) q
            | inl fine ↦
                rw (good, fine)
                  (keeps_initialize_all hooks Busy Ended kept ends (concat t.1.forward_layers) []
                    t.1 w (ap transitional same.0, same.1, q))
          ]
        ]

    initialize_busy :
        (s : LifecycleState) (mode : OperatingMode) (app : AppState) (w : W)
        → Q w
        → Q (initialize_in hooks s mode app w).2
    unfolding initialize_in
    initialize_busy uninitialized mode app w q = begin_initialize_busy mode app w q
    initialize_busy _ mode app w q = q

    start_busy :
        (s : LifecycleState) (app : AppState) (w : W)
        → (s ≢ uninitialized → app.frozen ≡ true)
        → Q w
        → Q (start_in hooks s app w).2
    unfolding start_in
    start_busy initialized app w f q =
        keeps_start_all hooks Busy Ended kept ends initialized (concat app.forward_layers) []
          (entering starting app) w (refl, f (λ e. cc), q)
    start_busy stopped app w f q =
        keeps_start_all hooks Busy Ended kept ends stopped (concat app.forward_layers) []
          (entering starting app) w (refl, f (λ e. cc), q)
    start_busy _ app w f q = q

    stop_busy :
        (s : LifecycleState) (app : AppState) (w : W)
        → (s ≢ uninitialized → app.frozen ≡ true)
        → Q w
        → Q (stop_in hooks s app w).2
    unfolding stop_in
    stop_busy running app w f q =
        keeps_finish_stop hooks Busy Ended kept ends false app w (refl, f (λ e. cc), q)
    stop_busy crashed app w f q =
        keeps_finish_stop hooks Busy Ended kept ends true app w (refl, f (λ e. cc), q)
    stop_busy _ app w f q = q

    terminate_busy :
        (s : LifecycleState) (app : AppState) (w : W)
        → (s ≢ uninitialized → app.frozen ≡ true)
        → Q w
        → Q (terminate_in hooks s app w).2
    unfolding terminate_in
    terminate_busy initialized app w f q =
        keeps_finish_terminate hooks Busy Ended kept ends app w (refl, f (λ e. cc), q)
    terminate_busy running app w f q =
        keeps_finish_terminate hooks Busy Ended kept ends app w (refl, f (λ e. cc), q)
    terminate_busy stopped app w f q =
        keeps_finish_terminate hooks Busy Ended kept ends app w (refl, f (λ e. cc), q)
    terminate_busy crashed app w f q =
        keeps_finish_terminate hooks Busy Ended kept ends app w (refl, f (λ e. cc), q)
    terminate_busy _ app w f q = q

    call_busy : (c : Call) (app : AppState) (w : W) → IsValid app → Q w → Q (call hooks c app w).2
    call_busy (register id o) app w v q = q
    call_busy (initializes mode) app w v q = initialize_busy app.state mode app w q
    call_busy starts app w v q = start_busy app.state app w (frozen_of (v 0)) q
    call_busy stops app w v q = stop_busy app.state app w (frozen_of (v 0)) q
    call_busy terminates app w v q = terminate_busy app.state app w (frozen_of (v 0)) q

  -- From a valid state, every history of calls keeps a property of the world that each hook keeps when
  -- it runs in a state in which every operation is refused: the hooks run in no other state.
  pub run-KeepsWhenRefused :
      (Q : W → Type 0) (cs : List Call) (app : AppState) (w : W)
      → KeepsWhenRefused Q
      → IsValid app
      → Q w
      → Q (run hooks cs app w).1
  run-KeepsWhenRefused Q [] app w k v q = q
  run-KeepsWhenRefused Q (c ∷ cs) app w k v q =
      let r = call hooks c app w in
      run-KeepsWhenRefused Q cs r.1 r.2 k (call-IsValid hooks c app w v) (call_busy Q k c app w v q)
