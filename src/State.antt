-- ===== src/State.antt =====
-- state/lifecycle.hpp and the registry of state/state.hpp and state/state.cpp. A subsystem's
-- `std::type_index` is a number, its name a list of bytes. The mutexes are left out: the lifecycle
-- mutex is held by each operation from start to end, and is recursive.
pub mod Topology
pub mod Lifecycle
mod Tests
use puc.Base.{
  ℕ, ◌≡◌, ◌↔◌, Bool, true, false, List, [], ◌∷◌, ◌++◌, Option, none, some, Eq, lookup, contains,
  emplace, length, if◌then◌else◌, ◌==◌, ==_iff,
}
use puc.Base.Bytes.{Bytes, bytes_eq, bytes_eq_iff}

pub data OperatingMode : Type 0 where
  tui test : OperatingMode
  -- a value that no enumerator names
  other_mode : ℕ → OperatingMode

pub data LifecycleState : Type 0 where
  uninitialized initializing initialized starting running : LifecycleState
  stopping stopped terminating terminated crashed : LifecycleState

pub data Status : Type 0 where
  ok invalid_argument duplicate_subsystem duplicate_subsystem_name : Status
  subsystem_not_found missing_dependency duplicate_dependency dependency_cycle : Status
  registration_frozen invalid_lifecycle_transition subsystem_failure internal_error : Status

abbrev pub is_ok : Status → Bool
is_ok ok = true
is_ok _ = false

pub record AppSubsystem : Type 0 where
  pub name : Bytes
  pub dependencies : List ℕ

pub record Entry : Type 0 where
  pub subsystem : AppSubsystem
  pub initialized : Bool
  pub started : Bool

pub record AppState : Type 0 where
  pub subsystems : List (ℕ × Entry)
  pub subsystem_names : List (Bytes × ℕ)
  pub registration_order : List ℕ
  pub forward_layers : List (List ℕ)
  pub reverse_layers : List (List ℕ)
  pub state : LifecycleState
  pub mode : OperatingMode
  pub frozen : Bool

instance abbrev pub id_eq : Eq ℕ
id_eq = record { beq = ◌==◌; beq_iff = ==_iff }

instance abbrev pub name_eq : Eq Bytes
name_eq = record { beq = bytes_eq; beq_iff = bytes_eq_iff }

abbrev pub new : AppState
new = record {
  subsystems = [];
  subsystem_names = [];
  registration_order = [];
  forward_layers = [];
  reverse_layers = [];
  state = uninitialized;
  mode = tui;
  frozen = false;
}

abbrev pub is_empty : Bytes → Bool
is_empty [] = true
is_empty (c ∷ cs) = false

-- The registry after one adapter was added.
abbrev pub registered : AppState → ℕ → AppSubsystem → AppState
registered app id subsystem = record app {
  subsystem_names = emplace subsystem.name id app.subsystem_names;
  subsystems =
      emplace id (record { subsystem = subsystem; initialized = false; started = false })
        app.subsystems;
  registration_order = app.registration_order ++ (id ∷ []);
}

-- A null pointer is `none`.
unfoldable pub register_subsystem_erased : ℕ → Option AppSubsystem → AppState → Status × AppState
unfolding contains
register_subsystem_erased id none app = (invalid_argument, app)
register_subsystem_erased id (some subsystem) app =
    if is_empty subsystem.name
    then (invalid_argument, app)
    else if app.frozen
    then (registration_frozen, app)
    else if contains id app.subsystems
    then (duplicate_subsystem, app)
    else if contains subsystem.name app.subsystem_names
    then (duplicate_subsystem_name, app)
    else (ok, registered app id subsystem)

abbrev pub find_entry : ℕ → AppState → Option Entry
find_entry id app = lookup id app.subsystems

abbrev pub find_subsystem : ℕ → AppState → Option AppSubsystem
find_subsystem id app = elim (lookup id app.subsystems) [
  | none ↦ none
  | some entry ↦ some entry.subsystem
]

abbrev pub size : AppState → ℕ
size app = length app.subsystems
