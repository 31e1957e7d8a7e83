-- ===== src/State/Lifecycle/Invariant.antt =====
-- The invariant of an `AppState` at rest, and that every operation keeps it.
use puc.Base.{
  ℕ, ◌<◌, Bool, true, false, ◌≡◌, ◌⊎◌, inl, inr, refl, sym, none, some, Option, List, concat,
  lookup, lookup-emplace, arith, Bool-cases, ap, ==_iff, ◌≢◌, subst,
}
use puc.Base.Sorting.{count}
use puc.State.{
  AppState, AppSubsystem, Entry, Status, is_ok, id_eq, name_eq, new, registered,
  register_subsystem_erased, LifecycleState, uninitialized, initializing, initialized, starting,
  running, stopping, stopped, terminating, terminated, crashed,
}
use puc.State.Topology.Layers.{Cached, count-concat-reverse}
use puc.State.Lifecycle.{record_failure}
use puc.State.Lifecycle.Flags.{
  is_initialized, is_started, initialized_in, started_in, Ordered, SameLayers,
}
use puc.State.Lifecycle.Initialization.{Initialized}

-- What the phase says of the subsystem `j`. A transitional phase is never left behind.
abbrev pub Phase : LifecycleState → ℕ → AppState → Type 0
Phase uninitialized j app = is_initialized j app ≡ false
Phase initialized j app =
    (0 < count j (concat app.forward_layers) → is_initialized j app ≡ true)
    × (is_started j app ≡ false)
Phase stopped j app =
    (0 < count j (concat app.forward_layers) → is_initialized j app ≡ true)
    × (is_started j app ≡ false)
Phase running j app =
    0 < count j (concat app.forward_layers)
    → (is_initialized j app ≡ true) × (is_started j app ≡ true)
Phase terminated j app = is_initialized j app ≡ false
Phase crashed j app = Unit
Phase initializing j app = ⊥
Phase starting j app = ⊥
Phase stopping j app = ⊥
Phase terminating j app = ⊥

-- The invariant at the subsystem `j`.
pub record ValidAt (j : ℕ) (app : AppState) : Type 0 where
  pub ordered : is_started j app ≡ true → is_initialized j app ≡ true
  pub reached : is_initialized j app ≡ true → 0 < count j (concat app.forward_layers)
  pub mirrored : count j (concat app.reverse_layers) ≡ count j (concat app.forward_layers)
  pub open_until : app.frozen ≡ false → app.state ≡ uninitialized
  pub phase : Phase app.state j app

abbrev pub IsValid : AppState → Type 0
IsValid app = (j : ℕ) → ValidAt j app

pub new-IsValid : IsValid new
unfolding initialized_in started_in
new-IsValid j = record {
  ordered = λ h. cc;
  reached = λ h. cc;
  mirrored = refl;
  open_until = λ h. refl;
  phase = refl;
}

-- Registration adds an entry that has run no hook.
module _ (id : ℕ) (subsystem : AppSubsystem) (app : AppState) (j : ℕ) where
  abbrev fresh : Entry
  fresh = record { subsystem = subsystem; initialized = false; started = false }

  is_initialized-registered :
      lookup id app.subsystems ≡ none
      → is_initialized j (registered app id subsystem) ≡ is_initialized j app
  unfolding initialized_in
  is_initialized-registered h =
      ground (arith, lookup-emplace id j fresh app.subsystems h, ==_iff id j)

  is_started-registered :
      lookup id app.subsystems ≡ none
      → is_started j (registered app id subsystem) ≡ is_started j app
  unfolding started_in
  is_started-registered h = ground (arith, lookup-emplace id j fresh app.subsystems h, ==_iff id j)

  registered-ValidAt :
      lookup id app.subsystems ≡ none
      → app.frozen ≡ false
      → ValidAt j app
      → ValidAt j (registered app id subsystem)
  registered-ValidAt h f v =
      let i = is_initialized-registered h in
      let st = is_started-registered h in
      record {
        ordered = ground arith;
        reached = ground arith;
        mirrored = v.mirrored;
        open_until = v.open_until;
        phase = ground (arith, v.open_until f, v.phase);
      }

  -- A registration changes nothing or adds the entry.
  pub register_adds :
      (register_subsystem_erased id (some subsystem) app).1 ≡ app
      ⊎ (lookup id app.subsystems ≡ none)
        × (app.frozen ≡ false)
        × ((register_subsystem_erased id (some subsystem) app).1 ≡ registered app id subsystem)
  unfolding register_subsystem_erased
  register_adds = ground arith

pub register-ValidAt :
    (id : ℕ) (o : Option AppSubsystem) (app : AppState) (j : ℕ)
    → ValidAt j app
    → ValidAt j (register_subsystem_erased id o app).1
unfolding register_subsystem_erased
register-ValidAt id none app j v = v
register-ValidAt id (some sub) app j v = elim (register_adds id sub app j) [
  | inl same ↦ subst (ValidAt j) (sym same) v
  | inr (n, f, e) ↦ subst (ValidAt j) (sym e) (registered-ValidAt id sub app j n f v)
]

-- The parts of the invariant that no transition after `initialize` changes, put together.
pub settle :
    (j : ℕ) (before after : AppState) (s : LifecycleState)
    → SameLayers after before
    → count j (concat before.reverse_layers) ≡ count j (concat before.forward_layers)
    → before.frozen ≡ true
    → Ordered j after
    → (is_initialized j after ≡ true → 0 < count j (concat before.forward_layers))
    → after.state ≡ s
    → Phase s j after
    → ValidAt j after
settle j before after s (fwd, rev, froz) m f o r e p =
    let fwd' = ap (λ (l : List (List ℕ)). count j (concat l)) fwd in
    let rev' = ap (λ (l : List (List ℕ)). count j (concat l)) rev in
    record {
      ordered = o;
      reached = λ i. omega (arith, r i);
      mirrored = omega arith;
      open_until = λ h. ground arith;
      phase = subst (λ st. Phase st j after) (sym e) p;
    }

pub frozen_of :
    {j : ℕ} {app : AppState} → ValidAt j app → app.state ≢ uninitialized → app.frozen ≡ true
frozen_of {j} {app} v h = elim (Bool-cases app.frozen) [
  | inl f ↦ f
  | inr f ↦ absurd (h (v.open_until f))
]

-- A subsystem that was started is in the layers, so a clean stop has reached it.
pub stopped_all :
    (j : ℕ) (before after : AppState)
    → ValidAt j before
    → (is_started j after ≡ true → is_started j before ≡ true)
    → (0 < count j (concat before.reverse_layers) → is_started j after ≡ false)
    → is_started j after ≡ false
stopped_all j before after v was stops = elim (Bool-cases (is_started j after)) [
  | inr idle ↦ idle
  | inl run ↦ stops (omega (arith, v.reached (v.ordered (was run)), v.mirrored))
]

pub from_running :
    {s : LifecycleState} {b : Bool} → (s ≡ running) ⊎ (b ≡ true) → b ≡ false → s ≡ running
from_running (inl e) h = e
from_running (inr c) h = cc

-- What the topology's construction keeps of the invariant.
pub Cached-keeps :
    (j : ℕ) (before after : AppState)
    → Cached before after
    → count j (concat before.reverse_layers) ≡ count j (concat before.forward_layers)
    → (after.subsystems ≡ before.subsystems)
      × (after.frozen ≡ before.frozen)
      × (count j (concat after.reverse_layers) ≡ count j (concat after.forward_layers))
Cached-keeps j before after (inl e) m = (
  ap (λ (a : AppState). a.subsystems) e,
  ap (λ (a : AppState). a.frozen) e,
  subst (λ (a : AppState). count j (concat a.reverse_layers) ≡ count j (concat a.forward_layers))
      (sym e) m,
)
Cached-keeps j before after (inr (layers, e)) m = (
  ap (λ (a : AppState). a.subsystems) e,
  ap (λ (a : AppState). a.frozen) e,
  subst (λ (a : AppState). count j (concat a.reverse_layers) ≡ count j (concat a.forward_layers))
      (sym e) (count-concat-reverse j layers),
)

-- The loop of `initialize` over all layers, from a state in which nothing is initialized.
pub loop_ends :
    {j : ℕ} (before after : AppState)
    → count j (concat before.reverse_layers) ≡ count j (concat before.forward_layers)
    → before.frozen ≡ true
    → is_initialized j before ≡ false
    → (is_started j before ≡ true → ⊥)
    → Initialized j (concat before.forward_layers) before after
    → ValidAt j after
loop_ends {j} before after mir froz cold idle t =
    let fwd = ap (λ (l : List (List ℕ)). count j (concat l)) t.layers.0 in
    let fin = λ (st : LifecycleState) (e : after.state ≡ st) (q : Phase st j after).
      settle j before after st t.layers mir froz (λ h. absurd (idle (t.idle h)))
        (λ i. let c = t.visited i in ground arith) e q in
    let quiet : is_started j after ≡ false = elim (Bool-cases (is_started j after)) [
      | inl run ↦ absurd (idle (t.idle run))
      | inr q ↦ q
    ] in
    elim t.phases [
      | inl e ↦ fin initialized e (λ m. t.keeps e (inr (omega (arith, fwd))), quiet)
      | inr e ↦ fin crashed e tt
    ]

pub recorded : (a b : Status) → is_ok (record_failure a b) ≡ true → is_ok a ≡ true
recorded a b h = ground arith

pub refuted : {b : Bool} → (b ≡ true → ⊥) → b ≡ false
refuted {b = true} h = absurd (h refl)
refuted {b = false} h = refl
