-- ===== src/Prelude.antt =====
-- What every other module shares: the libraries' names passed on, Boolean tests, lists over the
-- native numbers, and the widths of the C integer types.
mod Tests
mod Lists
mod Int
mod Text
mod Sorting
mod Insertion
mod Partial
pub use Tests.*
unfoldable pub use Lists.*
pub use Int.*
pub use Text.*
pub use Sorting.*
unfoldable pub use Insertion.*
pub use Partial.*
pub use Prim.Native.Nat.{ℕ, zero, suc, ◌+◌, ◌-◌, ◌*◌, ◌/◌, ◌%◌, ◌^◌, ◌≤◌, ◌<◌, min, max}
pub use mathlib.Core.Path.{◌≡◌, refl, sym, ap, ap₂, subst, ◌∙◌}
pub use mathlib.Core.Logic.{◌≢◌, ◌↔◌, ◌⊎◌, inl, inr}
pub use mathlib.Core.Bool.{Bool, true, false, not, ◌&&◌, ◌||◌}
pub use mathlib.Core.Option.{Option, none, some}
pub use mathlib.Core.List.{List, [], ◌∷◌, ◌++◌, append_assoc, append-nil}
pub use native.Mathlib.Omega.{arith}

-- SIZE_MAX, UINT64_MAX and PTRDIFF_MAX of the 64-bit platforms that the program is built for.
abbrev pub size_max : ℕ
size_max = 2 ^ 64 - 1

abbrev pub ptrdiff_max : ℕ
ptrdiff_max = 2 ^ 63 - 1

abbrev pub u64_max : ℕ
u64_max = 2 ^ 64 - 1
