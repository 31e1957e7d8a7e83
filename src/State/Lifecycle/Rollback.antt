-- ===== src/State/Lifecycle/Rollback.antt =====
-- What the two rollback loops leave behind.
use puc.Base.{ℕ, ◌<◌, true, false, ◌≡◌, refl, List, [], ◌∷◌, arith}
use puc.Base.Sorting.{count}
use puc.State.{AppState, is_ok, id_eq}
use puc.State.Lifecycle.{
  Hooks, update, with_started, released, rollback_started, rollback_initialized,
}
use puc.State.Lifecycle.Flags.{
  is_initialized, is_started, is_started-stop, is_initialized-stop, is_started-release,
  is_initialized-release, Ordered, SameLayers,
}

module _ {W : Type 0} (hooks : Hooks W) (j : ℕ) where
  pub is_initialized-rollback_started :
      (ids : List ℕ) (app : AppState) (w : W)
      → is_initialized j (rollback_started hooks ids app w).1 ≡ is_initialized j app
  unfolding rollback_started
  is_initialized-rollback_started [] app w = refl
  is_initialized-rollback_started (id ∷ ids) app w = ground (
    arith,
    is_initialized-stop id j app,
    is_initialized-rollback_started ids app w,
    is_initialized-rollback_started ids (update id (with_started false) app)
        (hooks.stop id app w).1,
  )

  pub is_started-rollback_started :
      (ids : List ℕ) (app : AppState) (w : W)
      → is_started j (rollback_started hooks ids app w).1 ≡ true
      → is_started j app ≡ true
  unfolding rollback_started
  is_started-rollback_started [] app w h = h
  is_started-rollback_started (id ∷ ids) app w h = ground (
    arith,
    is_started-stop id j app,
    is_started-rollback_started ids app w,
    is_started-rollback_started ids (update id (with_started false) app) (hooks.stop id app w).1,
  )

  pub rollback_started_stops :
      (ids : List ℕ) (app : AppState) (w : W)
      → is_ok (rollback_started hooks ids app w).0 ≡ true
      → 0 < count j ids
      → is_started j (rollback_started hooks ids app w).1 ≡ false
  unfolding rollback_started
  rollback_started_stops [] app w h m = absurd (omega arith)
  rollback_started_stops (id ∷ ids) app w h m = ground (
    arith,
    is_started-stop id j app,
    rollback_started_stops ids app w,
    rollback_started_stops ids (update id (with_started false) app) (hooks.stop id app w).1,
    is_started-rollback_started ids (update id (with_started false) app) (hooks.stop id app w).1,
  )

  pub is_started-rollback_initialized :
      (ids : List ℕ) (app : AppState) (w : W)
      → is_started j (rollback_initialized hooks ids app w).1 ≡ true
      → is_started j app ≡ true
  unfolding rollback_initialized
  is_started-rollback_initialized [] app w h = h
  is_started-rollback_initialized (id ∷ ids) app w h = ground (
    arith,
    is_started-release id j app,
    is_started-rollback_initialized ids app w,
    is_started-rollback_initialized ids (update id released app) (hooks.terminate id app w).1,
  )

  pub is_initialized-rollback_initialized :
      (ids : List ℕ) (app : AppState) (w : W)
      → is_initialized j (rollback_initialized hooks ids app w).1 ≡ true
      → is_initialized j app ≡ true
  unfolding rollback_initialized
  is_initialized-rollback_initialized [] app w h = h
  is_initialized-rollback_initialized (id ∷ ids) app w h = ground (
    arith,
    is_initialized-release id j app,
    is_initialized-rollback_initialized ids app w,
    is_initialized-rollback_initialized ids (update id released app) (hooks.terminate id app w).1,
  )

  -- Started subsystems stay initialized.
  pub rollback_initialized-Ordered :
      (ids : List ℕ) (app : AppState) (w : W)
      → Ordered j app
      → Ordered j (rollback_initialized hooks ids app w).1
  unfolding rollback_initialized
  rollback_initialized-Ordered [] app w h = h
  rollback_initialized-Ordered (id ∷ ids) app w h = ground (
    arith,
    is_started-release id j app,
    is_initialized-release id j app,
    rollback_initialized-Ordered ids app w,
    rollback_initialized-Ordered ids (update id released app) (hooks.terminate id app w).1,
  )

module _ {W : Type 0} (hooks : Hooks W) where
  pub rollback_started-SameLayers :
      (ids : List ℕ) (app : AppState) (w : W) → SameLayers (rollback_started hooks ids app w).1 app
  unfolding rollback_started
  rollback_started-SameLayers [] app w = (refl, refl, refl)
  rollback_started-SameLayers (id ∷ ids) app w = ground (
    arith,
    rollback_started-SameLayers ids app w,
    rollback_started-SameLayers ids (update id (with_started false) app) (hooks.stop id app w).1,
  )

  pub rollback_initialized-SameLayers :
      (ids : List ℕ) (app : AppState) (w : W)
      → SameLayers (rollback_initialized hooks ids app w).1 app
  unfolding rollback_initialized
  rollback_initialized-SameLayers [] app w = (refl, refl, refl)
  rollback_initialized-SameLayers (id ∷ ids) app w = ground (
    arith,
    rollback_initialized-SameLayers ids app w,
    rollback_initialized-SameLayers ids (update id released app) (hooks.terminate id app w).1,
  )
