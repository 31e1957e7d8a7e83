-- ===== src/State/Lifecycle/Startup.antt =====
-- What the loop of `start` leaves behind, on success and after a rollback.
use puc.Base.{
  ℕ, ◌<◌, true, false, ◌≡◌, ◌≢◌, ◌⊎◌, inl, inr, refl, some, List, [], ◌∷◌, arith, lookup,
  Option-cases, Bool-cases, if◌then◌else◌, ◌==◌, sym, ◌∙◌,
}
use puc.Base.Sorting.{count}
use puc.State.{AppState, Entry, Status, is_ok, id_eq, LifecycleState, running, crashed}
use puc.State.Lifecycle.{Hooks, caught, update, with_started, undo_start, break_start, start_all}
use puc.State.Lifecycle.Flags.{
  is_initialized, is_started, is_started-start, is_initialized-start, Ordered, SameLayers,
  initialized_in_found,
}
use puc.State.Lifecycle.Rollback.{
  is_initialized-rollback_started, is_started-rollback_started, rollback_started_stops,
  rollback_started-SameLayers,
}

-- What `start` leaves, seen at the subsystem `j`: the loop began with `ids` to visit, `done`
-- visited and the state `before`.
pub record Started (previous : LifecycleState) (j : ℕ) (ids done : List ℕ) (before after : AppState)
    : Type 0 where
  pub phases : (after.state ≡ running) ⊎ (after.state ≡ previous) ⊎ (after.state ≡ crashed)
  pub same : is_initialized j after ≡ is_initialized j before
  pub layers : SameLayers after before
  pub runs :
      previous ≢ running
      → after.state ≡ running
      → (is_started j before ≡ true) ⊎ (0 < count j ids)
      → (is_started j after ≡ true)
  pub undoes :
      previous ≢ running
      → previous ≢ crashed
      → after.state ≡ previous
      → (is_started j before ≡ true → 0 < count j done)
      → is_started j after ≡ false
  pub ordered : Ordered j before → Ordered j after

module _ {W : Type 0} (hooks : Hooks W) (previous : LifecycleState) where
  -- The ways in which one round of the loop goes on.
  start_all_cases :
      (P : AppState → Type 0) (id : ℕ) (ids done : List ℕ) (app : AppState) (w : W)
      → P (break_start hooks done app w).1
      → ((s : Status) (w' : W) → P (undo_start hooks s previous done app w').1)
      → ((entry : Entry) (w' : W)
          → lookup id app.subsystems ≡ some entry
          → entry.initialized ≡ true
          → P (start_all hooks previous ids (id ∷ done) (update id (with_started true) app) w').1)
      → P (start_all hooks previous (id ∷ ids) done app w).1
  unfolding start_all
  start_all_cases P id ids done app w broken undone goes =
      elim (Option-cases (lookup id app.subsystems)) [
        | inl missing ↦ rw (missing, start_all) broken
        | inr (entry, found) ↦ elim (Bool-cases entry.initialized) [
          | inr cold ↦ rw (found, cold, start_all) broken
          | inl warm ↦ elim (Bool-cases (is_ok (caught (hooks.start id app w).0))) [
            | inl good ↦ rw (found, warm, good, start_all) (goes entry _ found warm)
            | inr bad ↦
                rw (found, warm, bad, start_all) (undone (caught (hooks.start id app w).0) _)
          ]
        ]
      ]

  module _ (j : ℕ) where
    break_start-Started :
        (ids done : List ℕ) (app : AppState) (w : W)
        → Started previous j ids done app (break_start hooks done app w).1
    unfolding break_start
    break_start-Started ids done app w =
        let same = is_initialized-rollback_started hooks j done app w in
        let started = is_started-rollback_started hooks j done app w in
        record {
          phases = inr (inr refl);
          same = same;
          layers = rollback_started-SameLayers hooks done app w;
          runs = λ a b c. ground arith;
          undoes = λ a b c d. absurd (b (sym c));
          ordered = λ o s. same ∙ o (started s);
        }

    undo_start-Started :
        (s : Status) (ids done : List ℕ) (app : AppState) (w : W)
        → Started previous j ids done app (undo_start hooks s previous done app w).1
    unfolding undo_start
    undo_start-Started s ids done app w =
        let same = is_initialized-rollback_started hooks j done app w in
        let started = is_started-rollback_started hooks j done app w in
        record {
          phases = ground arith;
          same = same;
          layers = rollback_started-SameLayers hooks done app w;
          runs = λ a b c. ground arith;
          undoes = λ a b c d. ground (arith, rollback_started_stops hooks j done app w, started);
          ordered = λ o s. same ∙ o (started s);
        }

    pub start_all-Started :
        (ids done : List ℕ) (app : AppState) (w : W)
        → Started previous j ids done app (start_all hooks previous ids done app w).1
    unfolding start_all
    start_all-Started [] done app w = record {
      phases = inl refl;
      same = refl;
      layers = (refl, refl, refl);
      runs = λ a b c. ground arith;
      undoes = λ a b c d. absurd (a (sym c));
      ordered = λ o s. o s;
    }
    start_all-Started (id ∷ ids) done app w =
        start_all_cases (λ after. Started previous j (id ∷ ids) done app after) id ids done app w
          (break_start-Started (id ∷ ids) done app w)
          (λ s w'. undo_start-Started s (id ∷ ids) done app w')
          λ entry w' found warm.
            step w' (is_started-start id j app found) (is_initialized-start id j app found)
              (initialized_in_found id app found warm)
              (start_all-Started ids (id ∷ done) (update id (with_started true) app) w')
      where
        step :
            (w' : W)
            → is_started j (update id (with_started true) app)
              ≡ (if id == j then true else is_started j app)
            → is_initialized j (update id (with_started true) app) ≡ is_initialized j app
            → is_initialized id app ≡ true
            → Started previous j ids
                (id ∷ done)
                (update id (with_started true) app)
                (start_all hooks previous ids (id ∷ done) (update id (with_started true) app) w').1
            → Started previous j
                (id ∷ ids)
                done
                app
                (start_all hooks previous ids (id ∷ done) (update id (with_started true) app) w').1
        step w' es ei warm t = record {
          phases = t.phases;
          same = t.same ∙ ei;
          layers = t.layers;
          runs = λ a b c. t.runs a b (ground arith);
          undoes = λ a b c d. t.undoes a b c (ground arith);
          ordered = λ o. t.ordered (λ s. ground arith);
        }
