-- ===== src/State/Lifecycle/Loops.antt =====
-- What the writes and the hooks of state/state.cpp keep, its loops keep.
use puc.Base.{
  ℕ, inl, inr, Bool, true, false, not, ◌&&◌, List, [], ◌∷◌, Bool-cases, Option-cases, concat,
  lookup,
}
use puc.State.{AppState, Entry, Status, is_ok, id_eq, internal_error, LifecycleState}
use puc.State.Lifecycle.{
  Hooks, caught, update, entering, with_started, with_initialized, released, rollback_started,
  rollback_initialized, abandon, initialize_all, undo_start, break_start, start_all, stop_layer,
  stop_started, finish_stop, terminate_all, finish_terminate,
}

-- A property of the state and the world that writes to flags and hooks keep.
pub record IsKept {ℓ} {W : Type 0} (hooks : Hooks W) (P : AppState → W → Type ℓ) : Type ℓ where
  pub write :
      (id : ℕ) (f : Entry → Entry) (app : AppState) (w : W) → P app w → P (update id f app) w
  pub initialize : (id : ℕ) (app : AppState) (w : W) → P app w → P app (hooks.initialize id app w).1
  pub start : (id : ℕ) (app : AppState) (w : W) → P app w → P app (hooks.start id app w).1
  pub stop : (id : ℕ) (app : AppState) (w : W) → P app w → P app (hooks.stop id app w).1
  pub terminate : (id : ℕ) (app : AppState) (w : W) → P app w → P app (hooks.terminate id app w).1

module _ {ℓ} {W : Type 0} (hooks : Hooks W) (P R : AppState → W → Type ℓ) (k : IsKept hooks P)
    (ends : (s : LifecycleState) (app : AppState) (w : W) → P app w → R (entering s app) w) where
  keeps_rollback_started :
      (ids : List ℕ) (app : AppState) (w : W)
      → P app w
      → P (rollback_started hooks ids app w).1 (rollback_started hooks ids app w).2
  unfolding rollback_started
  keeps_rollback_started [] app w p = p
  keeps_rollback_started (id ∷ ids) app w p =
      let h = hooks.stop id app w in
      elim (Option-cases (lookup id app.subsystems)) [
        | inl m ↦ rw (rollback_started, m) (keeps_rollback_started ids app w p)
        | inr (entry, m) ↦ elim (Bool-cases (is_ok h.0)) [
          | inr b ↦ rw (rollback_started, m, b) (k.stop id app w p)
          | inl b ↦
              rw (rollback_started, m, b)
                (keeps_rollback_started ids (update id (with_started false) app) h.1
                  (k.write id (with_started false) app h.1 (k.stop id app w p)))
        ]
      ]

  keeps_rollback_initialized :
      (ids : List ℕ) (app : AppState) (w : W)
      → P app w
      → P (rollback_initialized hooks ids app w).1 (rollback_initialized hooks ids app w).2
  unfolding rollback_initialized
  keeps_rollback_initialized [] app w p = p
  keeps_rollback_initialized (id ∷ ids) app w p =
      let h = hooks.terminate id app w in
      elim (Option-cases (lookup id app.subsystems)) [
        | inl m ↦ rw (rollback_initialized, m) (keeps_rollback_initialized ids app w p)
        | inr (entry, m) ↦ elim (Bool-cases (is_ok h.0)) [
          | inr b ↦ rw (rollback_initialized, m, b) (k.terminate id app w p)
          | inl b ↦
              rw (rollback_initialized, m, b)
                (keeps_rollback_initialized ids (update id released app) h.1
                  (k.write id released app h.1 (k.terminate id app w p)))
        ]
      ]

  keeps_abandon :
      (s : Status) (ids : List ℕ) (app : AppState) (w : W)
      → P app w
      → R (abandon hooks s ids app w).1 (abandon hooks s ids app w).2
  unfolding abandon
  keeps_abandon s ids app w p = ends _ _ _ (keeps_rollback_initialized ids app w p)

  pub keeps_initialize_all :
      (ids done : List ℕ) (app : AppState) (w : W)
      → P app w
      → R (initialize_all hooks ids done app w).1 (initialize_all hooks ids done app w).2
  unfolding initialize_all
  keeps_initialize_all [] done app w p = ends _ _ _ p
  keeps_initialize_all (id ∷ ids) done app w p =
      let h = hooks.initialize id app w in
      elim (Option-cases (lookup id app.subsystems)) [
        | inl m ↦ rw (initialize_all, m) (keeps_abandon internal_error done app w p)
        | inr (entry, m) ↦ elim (Bool-cases (is_ok (caught h.0))) [
          | inr b ↦
              rw (initialize_all, m, b)
                (keeps_abandon (caught h.0) done app h.1 (k.initialize id app w p))
          | inl b ↦
              rw (initialize_all, m, b)
                (keeps_initialize_all ids (id ∷ done) (update id (with_initialized true) app) h.1
                  (k.write id (with_initialized true) app h.1 (k.initialize id app w p)))
        ]
      ]

  keeps_undo_start :
      (s : Status) (previous : LifecycleState) (ids : List ℕ) (app : AppState) (w : W)
      → P app w
      → R (undo_start hooks s previous ids app w).1 (undo_start hooks s previous ids app w).2
  unfolding undo_start
  keeps_undo_start s previous ids app w p = ends _ _ _ (keeps_rollback_started ids app w p)

  keeps_break_start :
      (ids : List ℕ) (app : AppState) (w : W)
      → P app w
      → R (break_start hooks ids app w).1 (break_start hooks ids app w).2
  unfolding break_start
  keeps_break_start ids app w p = ends _ _ _ (keeps_rollback_started ids app w p)

  pub keeps_start_all :
      (previous : LifecycleState) (ids done : List ℕ) (app : AppState) (w : W)
      → P app w
      → R (start_all hooks previous ids done app w).1 (start_all hooks previous ids done app w).2
  unfolding start_all
  keeps_start_all previous [] done app w p = ends _ _ _ p
  keeps_start_all previous (id ∷ ids) done app w p =
      let h = hooks.start id app w in
      elim (Option-cases (lookup id app.subsystems)) [
        | inl m ↦ rw (start_all, m) (keeps_break_start done app w p)
        | inr (entry, m) ↦ elim (Bool-cases entry.initialized) [
          | inr c ↦ rw (start_all, m, c) (keeps_break_start done app w p)
          | inl c ↦ elim (Bool-cases (is_ok (caught h.0))) [
            | inr b ↦
                rw (start_all, m, c, b)
                  (keeps_undo_start (caught h.0) previous done app h.1 (k.start id app w p))
            | inl b ↦
                rw (start_all, m, c, b)
                  (keeps_start_all previous ids (id ∷ done) (update id (with_started true) app) h.1
                    (k.write id (with_started true) app h.1 (k.start id app w p)))
          ]
        ]
      ]

  keeps_stop_layer :
      (ids : List ℕ) (app : AppState) (w : W)
      → P app w
      → P (stop_layer hooks ids app w).1 (stop_layer hooks ids app w).2
  unfolding stop_layer
  keeps_stop_layer [] app w p = p
  keeps_stop_layer (id ∷ ids) app w p =
      let h = hooks.stop id app w in
      elim (Option-cases (lookup id app.subsystems)) [
        | inl m ↦ rw (stop_layer, m) (keeps_stop_layer ids app w p)
        | inr (entry, m) ↦ elim (Bool-cases entry.started) [
          | inr c ↦ rw (stop_layer, m, c) (keeps_stop_layer ids app w p)
          | inl c ↦ elim (Bool-cases (is_ok h.0)) [
            | inr b ↦ rw (stop_layer, m, c, b) (keeps_stop_layer ids app h.1 (k.stop id app w p))
            | inl b ↦
                rw (stop_layer, m, c, b)
                  (keeps_stop_layer ids (update id (with_started false) app) h.1
                    (k.write id (with_started false) app h.1 (k.stop id app w p)))
          ]
        ]
      ]

  keeps_stop_started :
      (best_effort : Bool) (layers : List (List ℕ)) (app : AppState) (w : W)
      → P app w
      → P
          (stop_started hooks best_effort layers app w).1
          (stop_started hooks best_effort layers app w).2
  unfolding stop_started
  keeps_stop_started best_effort [] app w p = p
  keeps_stop_started best_effort (layer ∷ layers) app w p =
      let r = stop_layer hooks layer app w in
      let q = keeps_stop_layer layer app w p in
      elim (Bool-cases (not best_effort && not (is_ok r.0))) [
        | inl b ↦ rw (stop_started, b) q
        | inr b ↦ rw (stop_started, b) (keeps_stop_started best_effort layers r.1 r.2 q)
      ]

  pub keeps_finish_stop :
      (was_crashed : Bool) (app : AppState) (w : W)
      → P (entering LifecycleState.stopping app) w
      → R (finish_stop hooks was_crashed app w).1 (finish_stop hooks was_crashed app w).2
  unfolding finish_stop
  keeps_finish_stop was_crashed app w p =
      ends _ _ _
        (keeps_stop_started false app.reverse_layers (entering LifecycleState.stopping app) w p)

  keeps_terminate_all :
      (ids : List ℕ) (app : AppState) (w : W)
      → P app w
      → P (terminate_all hooks ids app w).1 (terminate_all hooks ids app w).2
  unfolding terminate_all
  keeps_terminate_all [] app w p = p
  keeps_terminate_all (id ∷ ids) app w p =
      let h = hooks.terminate id app w in
      elim (Option-cases (lookup id app.subsystems)) [
        | inl m ↦ rw (terminate_all, m) (keeps_terminate_all ids app w p)
        | inr (entry, m) ↦ elim (Bool-cases entry.initialized) [
          | inr c ↦ rw (terminate_all, m, c) (keeps_terminate_all ids app w p)
          | inl c ↦ elim (Bool-cases (is_ok h.0)) [
            | inr b ↦
                rw (terminate_all, m, c, b)
                  (keeps_terminate_all ids app h.1 (k.terminate id app w p))
            | inl b ↦
                rw (terminate_all, m, c, b)
                  (keeps_terminate_all ids (update id released app) h.1
                    (k.write id released app h.1 (k.terminate id app w p)))
          ]
        ]
      ]

  pub keeps_finish_terminate :
      (app : AppState) (w : W)
      → P (entering LifecycleState.terminating app) w
      → R (finish_terminate hooks app w).1 (finish_terminate hooks app w).2
  unfolding finish_terminate
  keeps_finish_terminate app w p =
      let before = entering LifecycleState.terminating app in
      let s = stop_started hooks true app.reverse_layers before w in
      ends _ _ _ (
        keeps_terminate_all (concat s.1.reverse_layers) s.1 s.2
          (keeps_stop_started true app.reverse_layers before w p))
