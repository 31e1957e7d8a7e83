-- ===== src/State/Lifecycle/Preservation.antt =====
-- Every operation of `AppState` keeps the invariant.
use puc.Base.{
  ℕ, ◌<◌, Bool, true, false, ◌≡◌, ◌⊎◌, inl, inr, refl, sym, ◌∙◌, Option, List, [], ◌∷◌, concat,
  arith, Bool-cases, ap, ◌≢◌, subst,
}
use puc.Base.Sorting.{count}
use puc.State.{
  AppState, AppSubsystem, is_ok, id_eq, name_eq, register_subsystem_erased, OperatingMode,
  LifecycleState, uninitialized, initializing, initialized, starting, running, stopping, stopped,
  terminating, terminated, crashed,
}
use puc.State.Topology.{build_topology}
use puc.State.Topology.Layers.{build_topology-Cached}
use puc.State.Lifecycle.{
  Hooks, Result, record_failure, initialize, start, stop, terminate, entering, valid_operating_mode,
  initialize_in, begin_initialize, start_in, start_all, stop_in, finish_stop, stop_started,
  terminate_in, finish_terminate, terminate_all,
}
use puc.State.Lifecycle.Flags.{is_initialized, is_started, initialized_in, started_in}
use puc.State.Lifecycle.Startup.{Started, start_all-Started}
use puc.State.Lifecycle.Initialization.{initialize_all-Initialized}
use puc.State.Lifecycle.Teardown.{
  is_initialized-stop_started, is_started-stop_started, stop_started_stops, stop_started-SameLayers,
  is_initialized-terminate_all, terminate_all-Ordered, terminate_all_releases,
  terminate_all-SameLayers,
}
use puc.State.Lifecycle.Invariant.{
  Phase, ValidAt, IsValid, register-ValidAt, settle, frozen_of, stopped_all, from_running,
  Cached-keeps, loop_ends, recorded, refuted,
}

module _ {W : Type 0} (hooks : Hooks W) (j : ℕ) (w : W) where
  start_all-ValidAt :
      (app : AppState) (previous : LifecycleState)
      → (previous ≡ initialized) ⊎ (previous ≡ stopped)
      → app.state ≡ previous
      → ValidAt j app
      → ValidAt j
          (start_all hooks previous (concat app.forward_layers) [] (entering starting app) w).1
  start_all-ValidAt app previous p s v =
      go _ (
        start_all-Started hooks previous j (concat app.forward_layers) [] (entering starting app) w)
    where
      held :
          (0 < count j (concat app.forward_layers) → is_initialized j app ≡ true)
          × (is_started j app ≡ false)
      held = elim p [
        | inl e ↦ subst (λ st. Phase st j app) (s ∙ e) v.phase
        | inr e ↦ subst (λ st. Phase st j app) (s ∙ e) v.phase
      ]

      go :
          (after : AppState)
          → Started previous j (concat app.forward_layers) [] (entering starting app) after
          → ValidAt j after
      go after t =
          let fin = λ (st : LifecycleState) (e : after.state ≡ st) (q : Phase st j after).
            settle j app after st t.layers v.mirrored (frozen_of v (ground arith))
              (t.ordered v.ordered) (λ i. v.reached (sym t.same ∙ i)) e q in
          let fwd = ap (λ (l : List (List ℕ)). count j (concat l)) t.layers.0 in
          let warm =
            λ (m : 0 < count j (concat after.forward_layers)). t.same ∙ held.0 (omega arith) in
          let undone = λ (e : after.state ≡ previous).
            t.undoes (λ q. ground arith) (λ q. ground arith) e (λ q. ground (arith, held.1)) in
          elim t.phases [
            | inl e ↦
                fin running e (λ m. (warm m, t.runs (λ q. ground arith) e (inr (omega arith))))
            | inr (inr e) ↦ fin crashed e tt
            | inr (inl e) ↦ elim p [
              | inl i ↦ fin initialized (e ∙ i) (warm, undone e)
              | inr i ↦ fin stopped (e ∙ i) (warm, undone e)
            ]
          ]

  -- The state that `initialize` hands to its loop, or a failed topology.
  begin_initialize-ValidAt :
      (mode : OperatingMode) (app : AppState)
      → ValidAt j app
      → app.state ≡ uninitialized
      → ValidAt j (begin_initialize hooks mode app w).1
  unfolding begin_initialize
  begin_initialize-ValidAt mode app v u =
      let before = record app { frozen = true; mode = mode; state = initializing } in
      let t = build_topology before in
      let (subs, froz, mir) = Cached-keeps j before t.1 (build_topology-Cached before) v.mirrored in
      let cold = subst (λ st. Phase st j app) u v.phase in
      let cold' = ap (initialized_in j) subs ∙ cold in
      let idle = λ (h : is_started j t.1 ≡ true). v.ordered (ap (started_in j) (sym subs) ∙ h) in
      elim (Bool-cases (valid_operating_mode mode)) [
        | inr bad ↦ rw bad v
        | inl good ↦ elim (Bool-cases (is_ok t.0)) [
          | inr failed ↦
              rw (good, failed)
                (settle j t.1 (entering crashed t.1) crashed (refl, refl, refl) mir froz
                  (λ h. ground (arith, idle h)) (λ i. ground arith) refl tt)
          | inl fine ↦
              rw (good, fine)
                (loop_ends t.1 _ mir froz cold' (λ h. ground (arith, idle h))
                  (initialize_all-Initialized hooks j (concat t.1.forward_layers) [] t.1 w))
        ]
      ]

  finish_stop-ValidAt :
      (was_crashed : Bool) (app : AppState)
      → (app.state ≡ running) ⊎ (was_crashed ≡ true)
      → app.state ≢ uninitialized
      → ValidAt j app
      → ValidAt j (finish_stop hooks was_crashed app w).1
  unfolding finish_stop
  finish_stop-ValidAt was_crashed app p nu v =
      let before = entering stopping app in
      let r = stop_started hooks false app.reverse_layers before w in
      let same = is_initialized-stop_started hooks j false app.reverse_layers before w in
      let was = is_started-stop_started hooks j false app.reverse_layers before w in
      let stops = stop_started_stops hooks j false app.reverse_layers before w in
      let layers = stop_started-SameLayers hooks false app.reverse_layers before w in
      let fwd = ap (λ (l : List (List ℕ)). count j (concat l)) layers.0 in
      let fin = λ (st : LifecycleState) (q : Phase st j (entering st r.1)).
        settle j app (entering st r.1) st layers v.mirrored (frozen_of v nu)
          (λ i. same ∙ v.ordered (was i)) (λ i. v.reached (sym same ∙ i)) refl q in
      elim (Bool-cases (is_ok r.0)) [
        | inr bad ↦ rw bad (fin crashed tt)
        | inl good ↦ elim (Bool-cases was_crashed) [
          | inl c ↦ rw (good, c) (fin crashed tt)
          | inr c ↦
              let run = subst (λ st. Phase st j app) (from_running p c) v.phase in
              rw (good, c)
                (fin stopped (
                  λ m. same ∙ (run (omega (arith, m, fwd))).0,
                  stopped_all j app r.1 v was (stops good),
                ))
        ]
      ]

  finish_terminate-ValidAt :
      (app : AppState)
      → app.state ≢ uninitialized
      → ValidAt j app
      → ValidAt j (finish_terminate hooks app w).1
  unfolding finish_terminate
  finish_terminate-ValidAt app nu v =
      let before = entering terminating app in
      let s = stop_started hooks true app.reverse_layers before w in
      let same = is_initialized-stop_started hooks j true app.reverse_layers before w in
      let was = is_started-stop_started hooks j true app.reverse_layers before w in
      let kept = stop_started-SameLayers hooks true app.reverse_layers before w in
      let t = terminate_all hooks (concat s.1.reverse_layers) s.1 s.2 in
      let less = is_initialized-terminate_all hooks j (concat s.1.reverse_layers) s.1 s.2 in
      let kept' = terminate_all-SameLayers hooks (concat s.1.reverse_layers) s.1 s.2 in
      let rev = ap (λ (l : List (List ℕ)). count j (concat l)) kept.1 in
      let before_that = λ (i : is_initialized j t.1 ≡ true). sym same ∙ less i in
      let clear : is_ok t.0 ≡ true → is_initialized j t.1 ≡ true → ⊥ = λ g i. ground (
        arith,
        terminate_all_releases hooks j (concat s.1.reverse_layers) s.1 s.2 g,
        v.reached (before_that i),
        v.mirrored,
        rev,
      ) in
      let fin = λ (st : LifecycleState) (q : Phase st j (entering st t.1)).
        settle j app (entering st t.1) st (kept'.0 ∙ kept.0, kept'.1 ∙ kept.1, kept'.2 ∙ kept.2)
          v.mirrored (frozen_of v nu)
          (terminate_all-Ordered hooks j (concat s.1.reverse_layers) s.1 s.2
            (λ i. same ∙ v.ordered (was i)))
          (λ i. v.reached (before_that i)) refl q in
      let failure = record_failure t.0 s.0 in
      elim (Bool-cases (is_ok failure)) [
        | inr bad ↦ rw bad (fin crashed tt)
        | inl good ↦ rw good (fin terminated (refuted (clear (recorded t.0 s.0 good))))
      ]

-- An operation that a client calls.
pub data Call : Type 0 where
  register : ℕ → Option AppSubsystem → Call
  initializes : OperatingMode → Call
  starts stops terminates : Call

module _ {W : Type 0} (hooks : Hooks W) where
  abbrev pub call : Call → AppState → W → Result hooks
  call (register id o) app w = let r = register_subsystem_erased id o app in (r.0, r.1, w)
  call (initializes mode) app w = initialize hooks mode app w
  call starts app w = start hooks app w
  call stops app w = stop hooks app w
  call terminates app w = terminate hooks app w

  abbrev pub run : List Call → AppState → W → AppState × W
  run [] app w = (app, w)
  run (c ∷ cs) app w = let r = call c app w in run cs r.1 r.2

  module _ (j : ℕ) (w : W) where
    initialize_in-ValidAt :
        (s : LifecycleState) (mode : OperatingMode) (app : AppState)
        → app.state ≡ s
        → ValidAt j app
        → ValidAt j (initialize_in hooks s mode app w).1
    unfolding initialize_in
    initialize_in-ValidAt uninitialized mode app e v =
        begin_initialize-ValidAt hooks j w mode app v e
    initialize_in-ValidAt _ mode app e v = v

    start_in-ValidAt :
        (s : LifecycleState) (app : AppState)
        → app.state ≡ s
        → ValidAt j app
        → ValidAt j (start_in hooks s app w).1
    unfolding start_in
    start_in-ValidAt initialized app e v =
        start_all-ValidAt hooks j w app initialized (inl refl) e v
    start_in-ValidAt stopped app e v = start_all-ValidAt hooks j w app stopped (inr refl) e v
    start_in-ValidAt _ app e v = v

    stop_in-ValidAt :
        (s : LifecycleState) (app : AppState)
        → app.state ≡ s
        → ValidAt j app
        → ValidAt j (stop_in hooks s app w).1
    unfolding stop_in
    stop_in-ValidAt running app e v =
        finish_stop-ValidAt hooks j w false app (inl e) (λ u. ground arith) v
    stop_in-ValidAt crashed app e v =
        finish_stop-ValidAt hooks j w true app (inr refl) (λ u. ground arith) v
    stop_in-ValidAt _ app e v = v

    terminate_in-ValidAt :
        (s : LifecycleState) (app : AppState)
        → app.state ≡ s
        → ValidAt j app
        → ValidAt j (terminate_in hooks s app w).1
    unfolding terminate_in
    terminate_in-ValidAt uninitialized app e v =
        let cold = subst (λ st. Phase st j app) e v.phase in
        record {
          ordered = v.ordered;
          reached = v.reached;
          mirrored = v.mirrored;
          open_until = λ h. cc;
          phase = cold;
        }
    terminate_in-ValidAt initialized app e v =
        finish_terminate-ValidAt hooks j w app (λ u. ground arith) v
    terminate_in-ValidAt running app e v =
        finish_terminate-ValidAt hooks j w app (λ u. ground arith) v
    terminate_in-ValidAt stopped app e v =
        finish_terminate-ValidAt hooks j w app (λ u. ground arith) v
    terminate_in-ValidAt crashed app e v =
        finish_terminate-ValidAt hooks j w app (λ u. ground arith) v
    terminate_in-ValidAt _ app e v = v

  pub call-IsValid : (c : Call) (app : AppState) (w : W) → IsValid app → IsValid (call c app w).1
  call-IsValid (register id o) app w v j = register-ValidAt id o app j (v j)
  call-IsValid (initializes mode) app w v j =
      initialize_in-ValidAt j w app.state mode app refl (v j)
  call-IsValid starts app w v j = start_in-ValidAt j w app.state app refl (v j)
  call-IsValid stops app w v j = stop_in-ValidAt j w app.state app refl (v j)
  call-IsValid terminates app w v j = terminate_in-ValidAt j w app.state app refl (v j)
