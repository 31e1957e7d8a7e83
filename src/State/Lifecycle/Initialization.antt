-- ===== src/State/Lifecycle/Initialization.antt =====
-- What the loop of `initialize` leaves behind, on success and after a rollback.
use puc.Base.{
  ℕ, ◌<◌, true, ◌≡◌, ◌⊎◌, inl, inr, refl, some, List, [], ◌∷◌, arith, lookup, Option-cases,
  Bool-cases, if◌then◌else◌, ◌==◌,
}
use puc.Base.Sorting.{count}
use puc.State.{AppState, Entry, Status, is_ok, id_eq, initialized, crashed, internal_error}
use puc.State.Lifecycle.{Hooks, caught, update, with_initialized, abandon, initialize_all}
use puc.State.Lifecycle.Flags.{
  is_initialized, is_started, is_started-initialize, is_initialized-initialize, Ordered, SameLayers,
}
use puc.State.Lifecycle.Rollback.{
  is_started-rollback_initialized, is_initialized-rollback_initialized,
  rollback_initialized-Ordered, rollback_initialized-SameLayers,
}

-- What `initialize` leaves, seen at the subsystem `j`: the loop began with `ids` to visit and the
-- state `before`.
pub record Initialized (j : ℕ) (ids : List ℕ) (before after : AppState) : Type 0 where
  pub phases : (after.state ≡ initialized) ⊎ (after.state ≡ crashed)
  pub layers : SameLayers after before
  pub visited : is_initialized j after ≡ true → (is_initialized j before ≡ true) ⊎ (0 < count j ids)
  pub keeps :
      after.state ≡ initialized
      → (is_initialized j before ≡ true) ⊎ (0 < count j ids)
      → is_initialized j after ≡ true
  pub idle : is_started j after ≡ true → is_started j before ≡ true
  pub ordered : Ordered j before → Ordered j after

module _ {W : Type 0} (hooks : Hooks W) where
  -- The ways in which one round of the loop goes on.
  initialize_all_cases :
      (P : AppState → Type 0) (id : ℕ) (ids done : List ℕ) (app : AppState) (w : W)
      → ((s : Status) (w' : W) → P (abandon hooks s done app w').1)
      → ((entry : Entry) (w' : W)
          → lookup id app.subsystems ≡ some entry
          → P (initialize_all hooks ids (id ∷ done) (update id (with_initialized true) app) w').1)
      → P (initialize_all hooks (id ∷ ids) done app w).1
  unfolding initialize_all
  initialize_all_cases P id ids done app w failed goes =
      elim (Option-cases (lookup id app.subsystems)) [
        | inl missing ↦ rw (missing, initialize_all) (failed internal_error w)
        | inr (entry, found) ↦ elim (Bool-cases (is_ok (caught (hooks.initialize id app w).0))) [
          | inl good ↦ rw (found, good, initialize_all) (goes entry _ found)
          | inr bad ↦
              rw (found, bad, initialize_all) (failed (caught (hooks.initialize id app w).0) _)
        ]
      ]

  module _ (j : ℕ) where
    abandon-Initialized :
        (s : Status) (ids done : List ℕ) (app : AppState) (w : W)
        → Initialized j ids app (abandon hooks s done app w).1
    unfolding abandon
    abandon-Initialized s ids done app w =
        let was = is_initialized-rollback_initialized hooks j done app w in
        record {
          phases = inr refl;
          layers = rollback_initialized-SameLayers hooks done app w;
          visited = λ h. inl (was h);
          keeps = λ a b. ground arith;
          idle = is_started-rollback_initialized hooks j done app w;
          ordered = rollback_initialized-Ordered hooks j done app w;
        }

    pub initialize_all-Initialized :
        (ids done : List ℕ) (app : AppState) (w : W)
        → Initialized j ids app (initialize_all hooks ids done app w).1
    unfolding initialize_all
    initialize_all-Initialized [] done app w = record {
      phases = inl refl;
      layers = (refl, refl, refl);
      visited = λ h. inl h;
      keeps = λ a b. ground arith;
      idle = λ h. h;
      ordered = λ o. o;
    }
    initialize_all-Initialized (id ∷ ids) done app w =
        initialize_all_cases (λ after. Initialized j (id ∷ ids) app after) id ids done app w
          (λ s w'. abandon-Initialized s (id ∷ ids) done app w')
          λ entry w' found.
            step _ (is_initialized-initialize id j app found) (is_started-initialize id j app found)
              (initialize_all-Initialized ids (id ∷ done) (update id (with_initialized true) app)
                w')
      where
        step :
            (after : AppState)
            → is_initialized j (update id (with_initialized true) app)
              ≡ (if id == j then true else is_initialized j app)
            → is_started j (update id (with_initialized true) app) ≡ is_started j app
            → Initialized j ids (update id (with_initialized true) app) after
            → Initialized j (id ∷ ids) app after
        step after ei es t = record {
          phases = t.phases;
          layers = t.layers;
          visited = λ h. let v = t.visited h in ground arith;
          keeps = λ a b. t.keeps a (ground arith);
          idle = λ h. let i = t.idle h in ground arith;
          ordered = λ o. t.ordered (λ s. ground arith);
        }
