-- ===== src/Common.antt =====
-- The names that the other modules share: the libraries', passed on, and those of the children
-- (tests on numbers, lists under native indices, names as byte strings, maps).
mod Tests
mod Lists
mod Text
mod Maps
mod Int
mod Split
mod Decimal
pub mod Fallible
pub mod Cutting
pub mod Printing
pub mod Tabulate
pub mod Keep
pub mod Sorting
pub use Tests.*
pub use Lists.*
unfoldable pub use Text.*
pub use Maps.*
unfoldable pub use Int.*
unfoldable pub use Split.*
unfoldable pub use Decimal.*
pub use Prim.Native.Nat.{ℕ, zero, suc, ◌+◌, ◌-◌, ◌*◌, ◌/◌, ◌%◌, ◌^◌, ◌≤◌, ◌<◌, min, max}
pub use Prim.Native.String.{String}
pub use mathlib.Core.Path.{◌≡◌, refl, sym, ap, ◌∙◌, subst}
pub use mathlib.Core.Logic.{◌≢◌, ◌↔◌, ◌⊎◌, inl, inr, ⊎_elim}
pub use mathlib.Core.Bool.{Bool, true, false, not, ◌&&◌, ◌||◌}
pub use mathlib.Core.Option.{Option, none, some}
pub use mathlib.Core.List.{List, [], ◌∷◌, ◌++◌, map, append_assoc, append-nil, Memᴰ, Permᴰ}
pub use mathlib.Core.WellFounded.{Acc}
pub use native.Mathlib.Omega.{arith}
