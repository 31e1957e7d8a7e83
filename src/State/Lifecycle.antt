-- ===== src/State/Lifecycle.antt =====
-- The transitions of `AppState` in state/state.cpp. The virtual hooks of the subsystems are
-- parameters: each sees the application's state and changes a world `W` of its own. The recursive
-- mutex lets a hook call an operation on its own thread; the hook runs in a transitional phase, in
-- which every operation is refused (State.Lifecycle.Reentry), so it cannot change the `AppState`.
-- Operations of other threads wait for the mutex. The two nested loops over layers that carry nothing
-- from layer to layer are one loop over the concatenation.
pub mod Loops
pub mod Flags
pub mod Teardown
pub mod Rollback
pub mod Startup
pub mod Initialization
pub mod Invariant
pub mod Preservation
pub mod Order
pub mod Reentry
pub mod Registry
use puc.Base.{
  ℕ, Bool, true, false, not, ◌&&◌, ◌||◌, List, [], ◌∷◌, ◌++◌, Option, none, some, reverse, lookup,
  modify, if◌then◌else◌, concat,
}
use puc.State.{
  AppState, Entry, Status, ok, invalid_argument, invalid_lifecycle_transition, subsystem_failure,
  internal_error, is_ok, id_eq, OperatingMode, tui, test, other_mode, LifecycleState, uninitialized,
  initializing, initialized, starting, running, stopping, stopped, terminating, terminated, crashed,
}
use puc.State.Topology.{build_topology}

-- What a hook that may throw does.
pub data Outcome : Type 0 where
  returned : Status → Outcome
  threw : Outcome

pub record Hooks (W : Type 0) : Type 0 where
  pub initialize : ℕ → AppState → W → Outcome × W
  pub start : ℕ → AppState → W → Outcome × W
  pub stop : ℕ → AppState → W → Status × W
  pub terminate : ℕ → AppState → W → Status × W

-- The `try` block around a hook.
abbrev pub caught : Outcome → Status
caught (returned s) = s
caught threw = subsystem_failure

abbrev pub record_failure : Status → Status → Status
record_failure candidate first_failure =
    if is_ok first_failure && not (is_ok candidate) then candidate else first_failure

abbrev pub valid_operating_mode : OperatingMode → Bool
valid_operating_mode tui = true
valid_operating_mode test = true
valid_operating_mode (other_mode n) = false

-- Writes to the flags of an entry.
abbrev pub with_initialized : Bool → Entry → Entry
with_initialized b entry = record entry { initialized = b }

abbrev pub with_started : Bool → Entry → Entry
with_started b entry = record entry { started = b }

abbrev pub released : Entry → Entry
released entry = record entry { initialized = false; started = false }

abbrev pub update : ℕ → (Entry → Entry) → AppState → AppState
update id f app = record app { subsystems = modify id f app.subsystems }

abbrev pub entering : LifecycleState → AppState → AppState
entering s app = record app { state = s }

module _ {W : Type 0} (hooks : Hooks W) where
  -- The result of an operation.
  abbrev pub Result : Type 0
  Result = Status × AppState × W

  -- The list is in the order of the visits, the newest entry first. A failed hook ends the loop; a
  -- missing entry does not.
  unfoldable pub rollback_started : List ℕ → AppState → W → Result
  unfolding lookup modify
  rollback_started [] app w = (ok, app, w)
  rollback_started (id ∷ ids) app w = elim (lookup id app.subsystems) [
    | none ↦ let r = rollback_started ids app w in (record_failure r.0 internal_error, r.1, r.2)
    | some entry ↦
        let h = hooks.stop id app w in
        let rest = rollback_started ids (update id (with_started false) app) h.1 in
        if is_ok h.0 then rest else (h.0, app, h.1)
  ]

  unfoldable pub rollback_initialized : List ℕ → AppState → W → Result
  unfolding lookup modify
  rollback_initialized [] app w = (ok, app, w)
  rollback_initialized (id ∷ ids) app w = elim (lookup id app.subsystems) [
    | none ↦ let r = rollback_initialized ids app w in (record_failure r.0 internal_error, r.1, r.2)
    | some entry ↦
        let h = hooks.terminate id app w in
        let rest = rollback_initialized ids (update id released app) h.1 in
        if is_ok h.0 then rest else (h.0, app, h.1)
  ]

  -- A failed initialization: the rollback's status is dropped.
  unfoldable pub abandon : Status → List ℕ → AppState → W → Result
  unfolding rollback_initialized
  abandon failure done app w =
      let r = rollback_initialized done app w in (failure, entering crashed r.1, r.2)

  -- `done` holds the initialized subsystems, the last one first.
  unfoldable pub initialize_all : List ℕ → List ℕ → AppState → W → Result
  unfolding abandon lookup modify
  initialize_all [] done app w = (ok, entering initialized app, w)
  initialize_all (id ∷ ids) done app w = elim (lookup id app.subsystems) [
    | none ↦ abandon internal_error done app w
    | some entry ↦
        let h = hooks.initialize id app w in
        let rest = initialize_all ids (id ∷ done) (update id (with_initialized true) app) h.1 in
        if is_ok (caught h.0) then rest else abandon (caught h.0) done app h.1
  ]

  unfoldable pub begin_initialize : OperatingMode → AppState → W → Result
  begin_initialize mode app w =
      let t = build_topology (record app { frozen = true; mode = mode; state = initializing }) in
      if valid_operating_mode mode
      then if is_ok t.0
        then initialize_all (concat t.1.forward_layers) [] t.1 w
        else (t.0, entering crashed t.1, w)
      else (invalid_argument, app, w)

  -- Each operation by the phase in which it is called.
  unfoldable pub initialize_in : LifecycleState → OperatingMode → AppState → W → Result
  initialize_in uninitialized mode app w = begin_initialize mode app w
  initialize_in _ mode app w = (invalid_lifecycle_transition, app, w)

  abbrev pub initialize : OperatingMode → AppState → W → Result
  initialize mode app w = initialize_in app.state mode app w

  -- A failed start: the phase depends on whether the rollback succeeds.
  unfoldable pub undo_start : Status → LifecycleState → List ℕ → AppState → W → Result
  unfolding rollback_started
  undo_start failure previous done app w =
      let r = rollback_started done app w in
      (failure, entering (if is_ok r.0 then previous else crashed) r.1, r.2)

  -- An entry that is missing or not initialized, which always ends in a crash.
  unfoldable pub break_start : List ℕ → AppState → W → Result
  unfolding rollback_started
  break_start done app w =
      let r = rollback_started done app w in (internal_error, entering crashed r.1, r.2)

  unfoldable pub start_all : LifecycleState → List ℕ → List ℕ → AppState → W → Result
  unfolding undo_start break_start lookup modify
  start_all previous [] done app w = (ok, entering running app, w)
  start_all previous (id ∷ ids) done app w = elim (lookup id app.subsystems) [
    | none ↦ break_start done app w
    | some entry ↦
        let h = hooks.start id app w in
        let rest = start_all previous ids (id ∷ done) (update id (with_started true) app) h.1 in
        if entry.initialized
        then if is_ok (caught h.0) then rest else undo_start (caught h.0) previous done app h.1
        else break_start done app w
  ]

  abbrev pub begin_start : LifecycleState → AppState → W → Result
  begin_start previous app w =
      start_all previous (concat app.forward_layers) [] (entering starting app) w

  unfoldable pub start_in : LifecycleState → AppState → W → Result
  start_in initialized app w = begin_start initialized app w
  start_in stopped app w = begin_start stopped app w
  start_in _ app w = (invalid_lifecycle_transition, app, w)

  abbrev pub start : AppState → W → Result
  start app w = start_in app.state app w

  -- One layer of `stop_started`: the first failure of the layer.
  unfoldable pub stop_layer : List ℕ → AppState → W → Result
  unfolding lookup modify
  stop_layer [] app w = (ok, app, w)
  stop_layer (id ∷ ids) app w = elim (lookup id app.subsystems) [
    | none ↦ let r = stop_layer ids app w in (record_failure r.0 internal_error, r.1, r.2)
    | some entry ↦
        let h = hooks.stop id app w in
        let app' = (if is_ok h.0 then update id (with_started false) app else app) in
        let stopping_it = stop_layer ids app' h.1 in
        let skipping_it = stop_layer ids app w in
        if entry.started
        then (record_failure stopping_it.0 h.0, stopping_it.1, stopping_it.2)
        else skipping_it
  ]

  -- `r` is the result of one layer, `rest` that of the layers behind it.
  abbrev pub then_layers : Bool → Result → Result → Result
  then_layers best_effort r rest =
      if not best_effort && not (is_ok r.0) then r else (record_failure rest.0 r.0, rest.1, rest.2)

  unfoldable pub stop_started : Bool → List (List ℕ) → AppState → W → Result
  stop_started best_effort [] app w = (ok, app, w)
  stop_started best_effort (layer ∷ layers) app w =
      let r = stop_layer layer app w in
      let rest = stop_started best_effort layers r.1 r.2 in then_layers best_effort r rest

  unfoldable pub finish_stop : Bool → AppState → W → Result
  finish_stop was_crashed app w =
      let r = stop_started false app.reverse_layers (entering stopping app) w in
      (r.0, entering (if is_ok r.0 && not was_crashed then stopped else crashed) r.1, r.2)

  unfoldable pub stop_in : LifecycleState → AppState → W → Result
  stop_in uninitialized app w = (ok, app, w)
  stop_in initialized app w = (ok, app, w)
  stop_in stopped app w = (ok, app, w)
  stop_in terminated app w = (ok, app, w)
  stop_in running app w = finish_stop false app w
  stop_in crashed app w = finish_stop true app w
  stop_in _ app w = (invalid_lifecycle_transition, app, w)

  abbrev pub stop : AppState → W → Result
  stop app w = stop_in app.state app w

  unfoldable pub terminate_all : List ℕ → AppState → W → Result
  unfolding lookup modify
  terminate_all [] app w = (ok, app, w)
  terminate_all (id ∷ ids) app w = elim (lookup id app.subsystems) [
    | none ↦ let r = terminate_all ids app w in (record_failure r.0 internal_error, r.1, r.2)
    | some entry ↦
        let h = hooks.terminate id app w in
        let app' = (if is_ok h.0 then update id released app else app) in
        let releasing_it = terminate_all ids app' h.1 in
        let skipping_it = terminate_all ids app w in
        if entry.initialized
        then (record_failure releasing_it.0 h.0, releasing_it.1, releasing_it.2)
        else skipping_it
  ]

  unfoldable pub finish_terminate : AppState → W → Result
  finish_terminate app w =
      let s = stop_started true app.reverse_layers (entering terminating app) w in
      let t = terminate_all (concat s.1.reverse_layers) s.1 s.2 in
      let failure = record_failure t.0 s.0 in
      (failure, entering (if is_ok failure then terminated else crashed) t.1, t.2)

  unfoldable pub terminate_in : LifecycleState → AppState → W → Result
  terminate_in terminated app w = (ok, app, w)
  terminate_in initializing app w = (invalid_lifecycle_transition, app, w)
  terminate_in starting app w = (invalid_lifecycle_transition, app, w)
  terminate_in stopping app w = (invalid_lifecycle_transition, app, w)
  terminate_in terminating app w = (invalid_lifecycle_transition, app, w)
  terminate_in uninitialized app w = (ok, entering terminated (record app { frozen = true }), w)
  terminate_in _ app w = finish_terminate app w

  abbrev pub terminate : AppState → W → Result
  terminate app w = terminate_in app.state app w
