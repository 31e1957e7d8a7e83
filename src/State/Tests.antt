-- ===== src/State/Tests.antt =====
-- Runs of the lifecycle on two subsystems, the second of which depends on the first.
use puc.Base.{
  lookup, ℕ, true, false, ◌≡◌, refl, List, [], ◌∷◌, ◌++◌, some, ◌==◌, ◌+◌, if◌then◌else◌,
}
use puc.Base.Bytes.{bytes, bytes_eq}
use puc.Graph
use puc.State.{
  AppSubsystem, AppState, ok, subsystem_failure, new, tui, stopping, is_ok, initialized,
  register_subsystem_erased,
}
use puc.State.Topology.{build_topology, cache_layers, add_nodes, add_edges}
use puc.State.Lifecycle.{
  Hooks, returned, threw, start_all, initialize_in, begin_initialize, start_in, stop_started,
  stop_layer, initialize_all,
}
use puc.State.Lifecycle.Invariant.{new-IsValid}
use puc.State.Lifecycle.Preservation.{Call, register, initializes, starts, stops, terminates, run}
use puc.State.Lifecycle.Order.{stop_started_halts}
use puc.State.Lifecycle.Reentry.{IsRefusing, run-KeepsWhenRefused}
use puc.State.Lifecycle.Registry.{IsSound, new-IsSound, run-IsSound}

abbrev logger : AppSubsystem
logger = record { name = bytes "logger"; dependencies = [] }

abbrev screen : AppSubsystem
screen = record { name = bytes "screen"; dependencies = 1 ∷ [] }

-- The world counts the hooks. The first start of subsystem 2 throws; stops of 7 fail.
abbrev flaky : Hooks ℕ
flaky = record {
  initialize = λ id app w. (returned ok, w + 1);
  start =
      λ id app w. (if id == 2 then if w == 3 then threw else returned ok else returned ok, w + 1);
  stop = λ id app w. (if id == 7 then subsystem_failure else ok, w + 1);
  terminate = λ id app w. (ok, w + 1);
}

abbrev history : List Call
history = register 2 (some screen) ∷ register 1 (some logger) ∷ initializes tui ∷ starts ∷ []

ready : AppState
unfolding register_subsystem_erased initialize_in begin_initialize start_in start_all initialize_all
    build_topology cache_layers add_nodes add_edges Graph.forward_layers Graph.reverse_layers
    bytes_eq
ready = (run flaky history new 0).0

-- The dependency comes first in the layers, although it was registered last.
ready_layers : ready.forward_layers ≡ (1 ∷ []) ∷ (2 ∷ []) ∷ []
unfolding ready
ready_layers = refl

-- The start failed and was undone, so the phase is the previous one.
ready_state : ready.state ≡ initialized
unfolding ready
ready_state = refl

run-IsSound_example : IsSound (run flaky (history ++ (starts ∷ stops ∷ terminates ∷ [])) new 0).0
run-IsSound_example =
    run-IsSound flaky (history ++ (starts ∷ stops ∷ terminates ∷ [])) new 0 new-IsSound

-- A call from inside a hook: the world becomes 1 when a registration is accepted there.
attempt : AppState → ℕ → ℕ
attempt app w = if is_ok (register_subsystem_erased 5 (some logger) app).0 then 1 else w

abbrev reentrant : Hooks ℕ
reentrant = record {
  initialize = λ id app w. (returned ok, attempt app w);
  start = λ id app w. (returned ok, attempt app w);
  stop = λ id app w. (ok, attempt app w);
  terminate = λ id app w. (ok, attempt app w);
}

abbrev Untouched : ℕ → Type 0
Untouched w = w ≡ 0

attempt_refused :
    (app : AppState) (w : ℕ) → IsRefusing reentrant app → Untouched w → Untouched (attempt app w)
unfolding attempt
attempt_refused app w r q = rw ((r (register 5 (some logger)) w).0, q) refl

run-KeepsWhenRefused_example :
    Untouched (run reentrant (history ++ (stops ∷ starts ∷ terminates ∷ [])) new 0).1
run-KeepsWhenRefused_example =
    run-KeepsWhenRefused reentrant Untouched (history ++ (stops ∷ starts ∷ terminates ∷ [])) new 0
      (record {
        initialize = λ id app w. attempt_refused app w;
        start = λ id app w. attempt_refused app w;
        stop = λ id app w. attempt_refused app w;
        terminate = λ id app w. attempt_refused app w;
      })
      new-IsValid refl

-- Both subsystems are started, and the stop of 7 fails.
abbrev stopping_both : AppState
stopping_both = record new {
  state = stopping;
  subsystems =
      (7, record { subsystem = logger; initialized = true; started = true })
      ∷ (1, record { subsystem = logger; initialized = true; started = true })
      ∷ [];
}

stop_started_halts_example :
    stop_started flaky false ((7 ∷ []) ∷ (1 ∷ []) ∷ []) stopping_both 0
    ≡ stop_started flaky false ((7 ∷ []) ∷ []) stopping_both 0
unfolding stop_started stop_layer lookup
stop_started_halts_example =
    stop_started_halts flaky ((7 ∷ []) ∷ []) ((1 ∷ []) ∷ []) stopping_both 0 refl
