-- ===== src/State/Lifecycle/Registry.antt =====
-- The registry of state/state.cpp and the phases: what a phase says of each registered subsystem.
use puc.Base.{
  ℕ, ◌<◌, ◌≡◌, refl, sym, ap, subst, ◌∙◌, inl, inr, Bool, true, false, Option, none, some, List, [],
  ◌∷◌, arith, ◌==◌, Bool-cases, concat, lookup, contains, emplace, modify, lookup-emplace,
  lookup-modify,
}
use puc.Base.Sorting.{count, count-append}
use puc.State.{
  AppState, AppSubsystem, Entry, is_ok, id_eq, name_eq, new, registered, register_subsystem_erased,
  OperatingMode, LifecycleState, uninitialized, initializing, initialized, starting, running,
  stopping, stopped, terminating, terminated, crashed,
}
use puc.State.Topology.{build_topology}
use puc.State.Topology.Layers.{Cached, build_topology-Cached}
use puc.State.Topology.Coverage.{build_topology-count}
use puc.State.Lifecycle.{
  Hooks, entering, initialize_in, begin_initialize, start_in, stop_in, terminate_in,
  valid_operating_mode, start_all, finish_stop, finish_terminate,
}
use puc.State.Lifecycle.Flags.{is_initialized, is_started}
use puc.State.Lifecycle.Loops.{
  IsKept, keeps_initialize_all, keeps_start_all, keeps_finish_stop, keeps_finish_terminate,
}
use puc.State.Lifecycle.Invariant.{register_adds, Phase, IsValid, new-IsValid}
use puc.State.Lifecycle.Preservation.{
  Call, register, initializes, starts, stops, terminates, call, run, call-IsValid,
}

-- What the phase says of the subsystem `j`, which may be registered or not. A transitional phase is
-- never left behind.
abbrev pub Means : LifecycleState → ℕ → AppState → Type 0
Means uninitialized j app = is_initialized j app ≡ false
Means initialized j app =
    (contains j app.subsystems ≡ true → is_initialized j app ≡ true) × (is_started j app ≡ false)
Means stopped j app =
    (contains j app.subsystems ≡ true → is_initialized j app ≡ true) × (is_started j app ≡ false)
Means running j app =
    contains j app.subsystems ≡ true → (is_initialized j app ≡ true) × (is_started j app ≡ true)
Means terminated j app = is_initialized j app ≡ false
Means crashed j app = Unit
Means initializing j app = ⊥
Means starting j app = ⊥
Means stopping j app = ⊥
Means terminating j app = ⊥

-- The phases behind a successful `initialize` and before an end.
abbrev pub is_built : LifecycleState → Bool
is_built initialized = true
is_built running = true
is_built stopped = true
is_built _ = false

-- A registered subsystem stands in the registration order, and in the layers once they are built.
pub record KnownAt (j : ℕ) (app : AppState) : Type 0 where
  pub listed : contains j app.subsystems ≡ true → 0 < count j app.registration_order
  pub covered :
      is_built app.state ≡ true
      → contains j app.subsystems ≡ true
      → 0 < count j (concat app.forward_layers)

-- The whole invariant: the flags and layers are consistent, the registry is covered by the layers, and
-- the phase means what it says of every registered subsystem.
pub record IsSound (app : AppState) : Type 0 where
  pub valid : IsValid app
  pub known : (j : ℕ) → KnownAt j app
  pub means : (j : ℕ) → Means app.state j app

Phase-Means :
    (s : LifecycleState) (j : ℕ) (app : AppState)
    → Phase s j app
    → (is_built s ≡ true
        → contains j app.subsystems ≡ true
        → 0 < count j (concat app.forward_layers))
    → Means s j app
Phase-Means uninitialized j app p c = p
Phase-Means initialized j app p c = (λ h. p.0 (c refl h), p.1)
Phase-Means stopped j app p c = (λ h. p.0 (c refl h), p.1)
Phase-Means running j app p c = λ h. p (c refl h)
Phase-Means terminated j app p c = p
Phase-Means crashed j app p c = tt
Phase-Means _ j app p c = p

sound : (app : AppState) → IsValid app → ((j : ℕ) → KnownAt j app) → IsSound app
sound app v k = record {
  valid = v;
  known = k;
  means = λ j. let vj = v j in let kj = k j in Phase-Means app.state j app vj.phase kj.covered;
}

pub new-IsSound : IsSound new
unfolding contains lookup
new-IsSound = sound new new-IsValid (λ j. record { listed = λ h. cc; covered = λ b h. cc })

-- Nothing of the registry or of the layers is changed for the subsystem `j`.
record SameRegistry (j : ℕ) (before after : AppState) : Type 0 where
  contained : contains j after.subsystems ≡ contains j before.subsystems
  order : after.registration_order ≡ before.registration_order
  layers : after.forward_layers ≡ before.forward_layers

contains-modify :
    (id j : ℕ) (f : Entry → Entry) (m : List (ℕ × Entry))
    → contains j (modify id f m) ≡ contains j m
unfolding contains
contains-modify id j f m = ground (arith, lookup-modify id j f m)

module _ {W : Type 0} (hooks : Hooks W) (j : ℕ) (before : AppState) where
  abbrev Kept : AppState → W → Type 0
  Kept app w = SameRegistry j before app

  kept : IsKept hooks Kept
  kept = record {
    write = λ id f app w s. record {
      contained = contains-modify id j f app.subsystems ∙ s.contained;
      order = s.order;
      layers = s.layers;
    };
    initialize = λ id app w s. s;
    start = λ id app w s. s;
    stop = λ id app w s. s;
    terminate = λ id app w s. s;
  }

  ends : (s : LifecycleState) (app : AppState) (w : W) → Kept app w → Kept (entering s app) w
  ends s app w k = record { contained = k.contained; order = k.order; layers = k.layers }

  itself : (s : LifecycleState) → SameRegistry j before (entering s before)
  itself s = record { contained = refl; order = refl; layers = refl }

carried :
    (j : ℕ) (before after : AppState)
    → SameRegistry j before after
    → KnownAt j before
    → (is_built after.state ≡ true
        → contains j before.subsystems ≡ true
        → 0 < count j (concat before.forward_layers))
    → KnownAt j after
carried j before after s k c = record {
  listed =
      λ h. subst (λ (o : List ℕ). 0 < count j o) (sym s.order) (k.listed (sym s.contained ∙ h));
  covered = λ b h.
      subst (λ (l : List (List ℕ)). 0 < count j (concat l)) (sym s.layers)
        (c b (sym s.contained ∙ h));
}

registered-KnownAt :
    (id : ℕ) (subsystem : AppSubsystem) (app : AppState) (j : ℕ)
    → app.state ≡ uninitialized
    → lookup id app.subsystems ≡ none
    → KnownAt j app
    → KnownAt j (registered app id subsystem)
unfolding contains
registered-KnownAt id subsystem app j u n k =
    let fresh : Entry = record { subsystem = subsystem; initialized = false; started = false } in
    let l = lookup-emplace id j fresh app.subsystems n in
    let order = count-append j app.registration_order (id ∷ []) in
    record {
      listed = λ h. elim (Bool-cases (id == j)) [
        | inl b ↦ let one : 0 < count j (id ∷ []) = ground (arith, b) in omega (arith, order, one)
        | inr b ↦
            let same : lookup j (emplace id fresh app.subsystems) ≡ lookup j app.subsystems =
              l ∙ rw b refl in
            let old = k.listed (
              sym (
                ap (λ (o : Option Entry). elim o as (λ x. Bool) [ none ↦ false | some e ↦ true ])
                  same)
              ∙ h) in
            omega (arith, order, old)
      ];
      covered = λ b h. cc;
    }

register-KnownAt :
    (id : ℕ) (o : Option AppSubsystem) (app : AppState) (j : ℕ)
    → (app.frozen ≡ false → app.state ≡ uninitialized)
    → KnownAt j app
    → KnownAt j (register_subsystem_erased id o app).1
unfolding register_subsystem_erased
register-KnownAt id none app j v k = k
register-KnownAt id (some sub) app j v k = elim (register_adds id sub app j) [
  | inl same ↦ subst (KnownAt j) (sym same) k
  | inr (n, f, e) ↦ subst (KnownAt j) (sym e) (registered-KnownAt id sub app j (v f) n k)
]

-- What the topology's construction keeps, and what it adds when it succeeds.
built :
    (j : ℕ) (before after : AppState)
    → Cached before after
    → (contains j after.subsystems ≡ contains j before.subsystems)
      × (after.registration_order ≡ before.registration_order)
built j before after (inl e) = (
  ap (λ (a : AppState). contains j a.subsystems) e,
  ap (λ (a : AppState). a.registration_order) e,
)
built j before after (inr (layers, e)) = (
  ap (λ (a : AppState). contains j a.subsystems) e,
  ap (λ (a : AppState). a.registration_order) e,
)

module _ {W : Type 0} (hooks : Hooks W) (j : ℕ) (w : W) where
  begin_initialize-KnownAt :
      (mode : OperatingMode) (app : AppState)
      → KnownAt j app
      → KnownAt j (begin_initialize hooks mode app w).1
  unfolding begin_initialize
  begin_initialize-KnownAt mode app k =
      let before = record app { frozen = true; mode = mode; state = initializing } in
      let t = build_topology before in
      let (subs, order) = built j before t.1 (build_topology-Cached before) in
      let listed = λ (h : contains j t.1.subsystems ≡ true). k.listed (sym subs ∙ h) in
      let behind = λ (h : contains j t.1.subsystems ≡ true).
        subst (λ (o : List ℕ). 0 < count j o) (sym order) (listed h) in
      elim (Bool-cases (valid_operating_mode mode)) [
        | inr bad ↦ rw bad k
        | inl good ↦ elim (Bool-cases (is_ok t.0)) [
          | inr failed ↦ rw (good, failed) (record { listed = behind; covered = λ b h. cc })
          | inl fine ↦
              rw (good, fine)
                (let covered = λ (h : contains j t.1.subsystems ≡ true).
                    build_topology-count before j fine (listed h) in
                  carried j t.1 _
                    (keeps_initialize_all hooks (Kept hooks j t.1) (Kept hooks j t.1)
                      (kept hooks j t.1) (ends hooks j t.1) (concat t.1.forward_layers) [] t.1 w
                      (record { contained = refl; order = refl; layers = refl }))
                    (record { listed = behind; covered = λ b. covered }) (λ b. covered))
        ]
      ]

  initialize_in-KnownAt :
      (s : LifecycleState) (mode : OperatingMode) (app : AppState)
      → KnownAt j app
      → KnownAt j (initialize_in hooks s mode app w).1
  unfolding initialize_in
  initialize_in-KnownAt uninitialized mode app k = begin_initialize-KnownAt mode app k
  initialize_in-KnownAt _ mode app k = k

  start_all-KnownAt :
      (app : AppState) (previous : LifecycleState)
      → is_built app.state ≡ true
      → KnownAt j app
      → KnownAt j
          (start_all hooks previous (concat app.forward_layers) [] (entering starting app) w).1
  start_all-KnownAt app previous e k =
      carried j app _
        (keeps_start_all hooks (Kept hooks j app) (Kept hooks j app) (kept hooks j app)
          (ends hooks j app) previous (concat app.forward_layers) [] (entering starting app) w
          (itself hooks j app starting))
        k (λ b. k.covered e)

  start_in-KnownAt :
      (s : LifecycleState) (app : AppState)
      → app.state ≡ s
      → KnownAt j app
      → KnownAt j (start_in hooks s app w).1
  unfolding start_in
  start_in-KnownAt initialized app e k = start_all-KnownAt app initialized (ap is_built e) k
  start_in-KnownAt stopped app e k = start_all-KnownAt app stopped (ap is_built e) k
  start_in-KnownAt _ app e k = k

  finish_stop-KnownAt :
      (was_crashed : Bool) (app : AppState)
      → (is_built (finish_stop hooks was_crashed app w).1.state ≡ true → is_built app.state ≡ true)
      → KnownAt j app
      → KnownAt j (finish_stop hooks was_crashed app w).1
  finish_stop-KnownAt was_crashed app e k =
      carried j app _
        (keeps_finish_stop hooks (Kept hooks j app) (Kept hooks j app) (kept hooks j app)
          (ends hooks j app) was_crashed app w (itself hooks j app stopping))
        k (λ b. k.covered (e b))

  crashed_stop : (app : AppState) → is_built (finish_stop hooks true app w).1.state ≡ false
  unfolding finish_stop
  crashed_stop app = ground arith

  stop_in-KnownAt :
      (s : LifecycleState) (app : AppState)
      → app.state ≡ s
      → KnownAt j app
      → KnownAt j (stop_in hooks s app w).1
  unfolding stop_in
  stop_in-KnownAt running app e k = finish_stop-KnownAt false app (λ b. ap is_built e) k
  stop_in-KnownAt crashed app e k =
      finish_stop-KnownAt true app (λ b. ground (arith, crashed_stop app)) k
  stop_in-KnownAt _ app e k = k

  finish_terminate_unbuilt :
      (app : AppState) → is_built (finish_terminate hooks app w).1.state ≡ false
  unfolding finish_terminate
  finish_terminate_unbuilt app = ground arith

  finish_terminate-KnownAt :
      (app : AppState) → KnownAt j app → KnownAt j (finish_terminate hooks app w).1
  finish_terminate-KnownAt app k =
      carried j app _
        (keeps_finish_terminate hooks (Kept hooks j app) (Kept hooks j app) (kept hooks j app)
          (ends hooks j app) app w (itself hooks j app terminating))
        k (λ b. absurd (ground (arith, finish_terminate_unbuilt app)))

  terminate_in-KnownAt :
      (s : LifecycleState) (app : AppState)
      → KnownAt j app
      → KnownAt j (terminate_in hooks s app w).1
  unfolding terminate_in
  terminate_in-KnownAt uninitialized app k = record { listed = k.listed; covered = λ b h. cc }
  terminate_in-KnownAt initialized app k = finish_terminate-KnownAt app k
  terminate_in-KnownAt running app k = finish_terminate-KnownAt app k
  terminate_in-KnownAt stopped app k = finish_terminate-KnownAt app k
  terminate_in-KnownAt crashed app k = finish_terminate-KnownAt app k
  terminate_in-KnownAt _ app k = k

module _ {W : Type 0} (hooks : Hooks W) where
  call-KnownAt :
      (c : Call) (app : AppState) (w : W) (j : ℕ)
      → (app.frozen ≡ false → app.state ≡ uninitialized)
      → KnownAt j app
      → KnownAt j (call hooks c app w).1
  call-KnownAt (register id o) app w j f k = register-KnownAt id o app j f k
  call-KnownAt (initializes mode) app w j f k = initialize_in-KnownAt hooks j w app.state mode app k
  call-KnownAt starts app w j f k = start_in-KnownAt hooks j w app.state app refl k
  call-KnownAt stops app w j f k = stop_in-KnownAt hooks j w app.state app refl k
  call-KnownAt terminates app w j f k = terminate_in-KnownAt hooks j w app.state app k

  -- From a sound state every history of calls ends in a sound state, whatever the hooks do: a started
  -- subsystem is initialized, an initialized one is in the layers, every registered one is in the
  -- layers while the phase is INITIALIZED, RUNNING or STOPPED, and the phase holds for each registered
  -- subsystem (in RUNNING all are initialized and started, in INITIALIZED and STOPPED all are
  -- initialized and none is started, in UNINITIALIZED and TERMINATED none is initialized).
  pub run-IsSound :
      (cs : List Call) (app : AppState) (w : W) → IsSound app → IsSound (run hooks cs app w).0
  run-IsSound [] app w h = h
  run-IsSound (c ∷ cs) app w h = run-IsSound cs _ _ (
      sound _ (call-IsValid hooks c app w h.valid)
        (λ j. let v = h.valid j in call-KnownAt c app w j v.open_until (h.known j)))
