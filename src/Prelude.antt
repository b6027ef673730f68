-- ===== src/Prelude.antt =====
-- Names shared by every module: the libraries' names passed on, Boolean tests, lists measured by
-- native numbers, Go's signed integers, and results of fallible calls.
mod Tests
mod Lists
mod Results
mod Int
mod Assoc
mod Bytes
pub use Tests.*
pub use Lists.*
pub use Results.*
pub use Int.*
unfoldable pub use Assoc.{lookup, insert, erase}
unfoldable pub use Bytes.{byte_len}
pub use Assoc.{lookup-insert, lookup-erase, map_laws, IsMap, IsMap-insert, IsMap-erase}
pub use Prim.Native.Nat.{ℕ, zero, suc, ◌+◌, ◌-◌, ◌*◌, ◌/◌, ◌%◌, ◌^◌, ◌≤◌, ◌<◌}
pub use Prim.Native.String.{String}
pub use mathlib.Core.Path.{◌≡◌, refl, sym, ap, ◌∙◌, subst}
pub use mathlib.Core.Logic.{◌≢◌, ◌↔◌, ◌⊎◌, inl, inr}
pub use mathlib.Core.Bool.{Bool, true, false, not, ◌&&◌, ◌||◌}
pub use mathlib.Core.Option.{Option, none, some}
pub use mathlib.Core.List.{List, [], ◌∷◌, ◌++◌, map}
pub use native.Mathlib.Omega.{arith}
pub use text.Mathlib.TextEquality.{eq_iff}
