-- ===== src/Base.antt =====
-- The names that the other modules share: the libraries', passed on, and those of the children.
mod Tests
mod Lists
mod First
pub mod Int
mod Tallies
mod Find
mod Rows
mod Strings
mod Any
mod Sorting
mod Decimal
mod Lengths
unfoldable pub use Tests.*
unfoldable pub use Lists.*
unfoldable pub use Tallies.*
pub use Find.*
pub use Any.*
pub use First.*
pub use Rows.*
unfoldable pub use Strings.*
unfoldable pub use Sorting.*
unfoldable pub use Decimal.*
pub use Lengths.*
pub use Prim.Native.Nat.{ℕ, zero, suc, ◌+◌, ◌-◌, ◌*◌, ◌/◌, ◌%◌, ◌^◌, ◌≤◌, ◌<◌, min, max}
pub use Prim.Native.String.{String}
pub use mathlib.Core.Path.{◌≡◌, refl, sym, ap, ◌∙◌, subst}
pub use mathlib.Core.Logic.{◌≢◌, ◌↔◌, ◌⊎◌, inl, inr}
pub use mathlib.Core.Bool.{xor, Bool, true, false, not, ◌&&◌, ◌||◌, false≢true}
pub use mathlib.Core.Option.{Option, none, some, none-ne-some, some-ne-none, some-injective}
pub use mathlib.Core.List.{List, [], ◌∷◌, ◌++◌, map, cons≢nil, append-nil, append_assoc}
pub use native.Mathlib.Omega.{arith}
