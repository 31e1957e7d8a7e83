-- ===== src/Base.antt =====
-- The names that the modules of this library share: the libraries' own, passed on, the Boolean
-- tests on native numbers, lists under native lengths, and association lists for unordered maps.
mod Tests
mod Lists
mod Assoc
pub mod Sorting
pub mod Bytes
pub use Tests.*
pub use Lists.*
unfoldable pub use Assoc.{lookup, contains, emplace, modify}
pub use Assoc.{Eq, lookup-append, lookup-emplace, lookup-modify}
pub use Prim.Native.Nat.{ℕ, zero, suc, ◌+◌, ◌-◌, ◌*◌, ◌/◌, ◌%◌, ◌^◌, ◌≤◌, ◌<◌}
pub use mathlib.Core.Path.{◌≡◌, refl, sym, ap, ap₂, subst, ◌∙◌}
pub use mathlib.Core.Logic.{◌≢◌, ◌↔◌, ◌⊎◌, inl, inr}
pub use mathlib.Core.Bool.{Bool, true, false, not, ◌&&◌, ◌||◌}
pub use mathlib.Core.Option.{Option, none, some}
pub use mathlib.Core.List.{List, [], ◌∷◌, ◌++◌, map, reverse}
pub use mathlib.Core.List.{append-nil, append_assoc, reverse-append, reverse-cons}
pub use native.Mathlib.Omega.{arith}
