-- ===== src/State/Lifecycle/Flags.antt =====
-- The two flags of a registry entry, and what the writes of the lifecycle do to them.
use puc.Base.{
  ℕ, Bool, true, false, ◌≡◌, List, none, some, lookup, lookup-modify, if◌then◌else◌, ◌==◌, ==_iff,
  arith,
}
use puc.State.{AppState, Entry, id_eq}
use puc.State.Lifecycle.{update, with_initialized, with_started, released}

unfoldable pub initialized_in : ℕ → List (ℕ × Entry) → Bool
unfolding lookup
initialized_in id subsystems = elim (lookup id subsystems) [
  | none ↦ false
  | some entry ↦ entry.initialized
]

unfoldable pub started_in : ℕ → List (ℕ × Entry) → Bool
unfolding lookup
started_in id subsystems = elim (lookup id subsystems) [ none ↦ false | some entry ↦ entry.started ]

abbrev pub is_initialized : ℕ → AppState → Bool
is_initialized id app = initialized_in id app.subsystems

abbrev pub is_started : ℕ → AppState → Bool
is_started id app = started_in id app.subsystems

-- What every loop keeps for each subsystem.
abbrev pub Ordered : ℕ → AppState → Type 0
Ordered id app = is_started id app ≡ true → is_initialized id app ≡ true

abbrev pub SameLayers : AppState → AppState → Type 0
SameLayers a b =
    (a.forward_layers ≡ b.forward_layers)
    × (a.reverse_layers ≡ b.reverse_layers)
    × (a.frozen ≡ b.frozen)

module _ (k j : ℕ) (app : AppState) where
  pub is_started-stop :
      is_started j (update k (with_started false) app)
      ≡ (if k == j then false else is_started j app)
  unfolding started_in
  is_started-stop = ground (arith, lookup-modify k j (with_started false) app.subsystems)

  pub is_initialized-stop :
      is_initialized j (update k (with_started false) app) ≡ is_initialized j app
  unfolding initialized_in
  is_initialized-stop = ground (arith, lookup-modify k j (with_started false) app.subsystems)

  pub is_started-release :
      is_started j (update k released app) ≡ (if k == j then false else is_started j app)
  unfolding started_in
  is_started-release = ground (arith, lookup-modify k j released app.subsystems)

  pub is_initialized-release :
      is_initialized j (update k released app) ≡ (if k == j then false else is_initialized j app)
  unfolding initialized_in
  is_initialized-release = ground (arith, lookup-modify k j released app.subsystems)

  pub released-Ordered : Ordered j app → Ordered j (update k released app)
  released-Ordered h = ground (arith, is_started-release, is_initialized-release)

  module _ {entry : Entry} (present : lookup k app.subsystems ≡ some entry) where
    pub is_started-start :
        is_started j (update k (with_started true) app)
        ≡ (if k == j then true else is_started j app)
    unfolding started_in
    is_started-start =
        ground (arith, lookup-modify k j (with_started true) app.subsystems, ==_iff k j)

    pub is_initialized-start :
        is_initialized j (update k (with_started true) app) ≡ is_initialized j app
    unfolding initialized_in
    is_initialized-start = ground (arith, lookup-modify k j (with_started true) app.subsystems)

    pub is_initialized-initialize :
        is_initialized j (update k (with_initialized true) app)
        ≡ (if k == j then true else is_initialized j app)
    unfolding initialized_in
    is_initialized-initialize =
        ground (arith, lookup-modify k j (with_initialized true) app.subsystems, ==_iff k j)

    pub is_started-initialize :
        is_started j (update k (with_initialized true) app) ≡ is_started j app
    unfolding started_in
    is_started-initialize = ground (arith, lookup-modify k j (with_initialized true) app.subsystems)

pub initialized_in_found :
    (id : ℕ) (app : AppState) {entry : Entry}
    → lookup id app.subsystems ≡ some entry
    → entry.initialized ≡ true
    → is_initialized id app ≡ true
unfolding initialized_in
initialized_in_found id app found warm = rw (found, initialized_in) warm
