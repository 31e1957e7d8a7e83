-- ===== src/State/Lifecycle/Teardown.antt =====
-- What the loops of `stop` and `terminate` leave behind.
use puc.Base.{
  ℕ, ◌<◌, Bool, true, false, ◌≡◌, refl, inl, inr, List, [], ◌∷◌, arith, concat, lookup,
  Option-cases, Bool-cases,
}
use puc.Base.Sorting.{count, count-append}
use puc.State.{AppState, is_ok, id_eq}
use puc.State.Lifecycle.{
  Hooks, update, with_started, released, stop_layer, stop_started, terminate_all,
}
use puc.State.Lifecycle.Flags.{
  is_initialized, is_started, initialized_in, started_in, is_started-stop, is_initialized-stop,
  is_initialized-release, released-Ordered, Ordered, SameLayers,
}

module _ {W : Type 0} (hooks : Hooks W) (j : ℕ) where
  is_initialized-stop_layer :
      (ids : List ℕ) (app : AppState) (w : W)
      → is_initialized j (stop_layer hooks ids app w).1 ≡ is_initialized j app
  unfolding stop_layer
  is_initialized-stop_layer [] app w = refl
  is_initialized-stop_layer (id ∷ ids) app w = ground (
    arith,
    is_initialized-stop id j app,
    is_initialized-stop_layer ids app w,
    is_initialized-stop_layer ids app (hooks.stop id app w).1,
    is_initialized-stop_layer ids (update id (with_started false) app) (hooks.stop id app w).1,
  )

  is_started-stop_layer :
      (ids : List ℕ) (app : AppState) (w : W)
      → is_started j (stop_layer hooks ids app w).1 ≡ true
      → is_started j app ≡ true
  unfolding stop_layer
  is_started-stop_layer [] app w h = h
  is_started-stop_layer (id ∷ ids) app w h = ground (
    arith,
    is_started-stop id j app,
    is_started-stop_layer ids app w,
    is_started-stop_layer ids app (hooks.stop id app w).1,
    is_started-stop_layer ids (update id (with_started false) app) (hooks.stop id app w).1,
  )

  stop_layer_stops :
      (ids : List ℕ) (app : AppState) (w : W)
      → is_ok (stop_layer hooks ids app w).0 ≡ true
      → 0 < count j ids
      → is_started j (stop_layer hooks ids app w).1 ≡ false
  unfolding stop_layer started_in
  stop_layer_stops [] app w h m = absurd (omega arith)
  stop_layer_stops (id ∷ ids) app w h m = ground (
    arith,
    is_started-stop id j app,
    stop_layer_stops ids app w,
    stop_layer_stops ids (update id (with_started false) app) (hooks.stop id app w).1,
    is_started-stop_layer ids app w,
    is_started-stop_layer ids (update id (with_started false) app) (hooks.stop id app w).1,
  )

  pub is_initialized-stop_started :
      (best : Bool) (layers : List (List ℕ)) (app : AppState) (w : W)
      → is_initialized j (stop_started hooks best layers app w).1 ≡ is_initialized j app
  unfolding stop_started
  is_initialized-stop_started best [] app w = refl
  is_initialized-stop_started best (layer ∷ layers) app w =
      let r = stop_layer hooks layer app w in
      ground (
        arith,
        is_initialized-stop_layer layer app w,
        is_initialized-stop_started best layers r.1 r.2,
      )

  pub is_started-stop_started :
      (best : Bool) (layers : List (List ℕ)) (app : AppState) (w : W)
      → is_started j (stop_started hooks best layers app w).1 ≡ true
      → is_started j app ≡ true
  unfolding stop_started
  is_started-stop_started best [] app w h = h
  is_started-stop_started best (layer ∷ layers) app w h =
      let r = stop_layer hooks layer app w in
      ground (arith, is_started-stop_layer layer app w, is_started-stop_started best layers r.1 r.2)

  -- If every hook succeeds, nothing of these layers is left running.
  pub stop_started_stops :
      (best : Bool) (layers : List (List ℕ)) (app : AppState) (w : W)
      → is_ok (stop_started hooks best layers app w).0 ≡ true
      → 0 < count j (concat layers)
      → is_started j (stop_started hooks best layers app w).1 ≡ false
  unfolding stop_started
  stop_started_stops best [] app w h m = absurd (omega arith)
  stop_started_stops best (layer ∷ layers) app w h m =
      let r = stop_layer hooks layer app w in
      ground (
        arith,
        count-append j layer (concat layers),
        stop_layer_stops layer app w,
        stop_started_stops best layers r.1 r.2,
        is_started-stop_started best layers r.1 r.2,
      )

  pub is_initialized-terminate_all :
      (ids : List ℕ) (app : AppState) (w : W)
      → is_initialized j (terminate_all hooks ids app w).1 ≡ true
      → is_initialized j app ≡ true
  unfolding terminate_all
  is_initialized-terminate_all [] app w h = h
  is_initialized-terminate_all (id ∷ ids) app w h = ground (
    arith,
    is_initialized-release id j app,
    is_initialized-terminate_all ids app w,
    is_initialized-terminate_all ids app (hooks.terminate id app w).1,
    is_initialized-terminate_all ids (update id released app) (hooks.terminate id app w).1,
  )

  pub terminate_all-Ordered :
      (ids : List ℕ) (app : AppState) (w : W)
      → Ordered j app
      → Ordered j (terminate_all hooks ids app w).1
  unfolding terminate_all
  terminate_all-Ordered [] app w h = h
  terminate_all-Ordered (id ∷ ids) app w h =
      let s = hooks.terminate id app w in
      let kept = terminate_all-Ordered ids app s.1 h in
      let cleared =
        terminate_all-Ordered ids (update id released app) s.1 (released-Ordered id j app h) in
      elim (Option-cases (lookup id app.subsystems)) [
        | inl missing ↦ rw (missing, terminate_all) (terminate_all-Ordered ids app w h)
        | inr (entry, found) ↦ elim (Bool-cases entry.initialized) [
          | inr skipped ↦ rw (found, skipped, terminate_all) (terminate_all-Ordered ids app w h)
          | inl visited ↦ elim (Bool-cases (is_ok s.0)) [
            | inl good ↦ rw (found, visited, good, terminate_all) cleared
            | inr bad ↦ rw (found, visited, bad, terminate_all) kept
          ]
        ]
      ]

  pub terminate_all_releases :
      (ids : List ℕ) (app : AppState) (w : W)
      → is_ok (terminate_all hooks ids app w).0 ≡ true
      → 0 < count j ids
      → is_initialized j (terminate_all hooks ids app w).1 ≡ false
  unfolding terminate_all initialized_in
  terminate_all_releases [] app w h m = absurd (omega arith)
  terminate_all_releases (id ∷ ids) app w h m = ground (
    arith,
    is_initialized-release id j app,
    terminate_all_releases ids app w,
    terminate_all_releases ids (update id released app) (hooks.terminate id app w).1,
    is_initialized-terminate_all ids app w,
    is_initialized-terminate_all ids (update id released app) (hooks.terminate id app w).1,
  )

module _ {W : Type 0} (hooks : Hooks W) where
  stop_layer-SameLayers :
      (ids : List ℕ) (app : AppState) (w : W) → SameLayers (stop_layer hooks ids app w).1 app
  unfolding stop_layer
  stop_layer-SameLayers [] app w = (refl, refl, refl)
  stop_layer-SameLayers (id ∷ ids) app w = ground (
    arith,
    stop_layer-SameLayers ids app w,
    stop_layer-SameLayers ids app (hooks.stop id app w).1,
    stop_layer-SameLayers ids (update id (with_started false) app) (hooks.stop id app w).1,
  )

  pub stop_started-SameLayers :
      (best : Bool) (layers : List (List ℕ)) (app : AppState) (w : W)
      → SameLayers (stop_started hooks best layers app w).1 app
  unfolding stop_started
  stop_started-SameLayers best [] app w = (refl, refl, refl)
  stop_started-SameLayers best (layer ∷ layers) app w =
      let r = stop_layer hooks layer app w in
      ground (arith, stop_layer-SameLayers layer app w, stop_started-SameLayers best layers r.1 r.2)

  pub terminate_all-SameLayers :
      (ids : List ℕ) (app : AppState) (w : W) → SameLayers (terminate_all hooks ids app w).1 app
  unfolding terminate_all
  terminate_all-SameLayers [] app w = (refl, refl, refl)
  terminate_all-SameLayers (id ∷ ids) app w = ground (
    arith,
    terminate_all-SameLayers ids app w,
    terminate_all-SameLayers ids app (hooks.terminate id app w).1,
    terminate_all-SameLayers ids (update id released app) (hooks.terminate id app w).1,
  )
