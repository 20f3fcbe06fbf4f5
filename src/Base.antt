-- ===== src/Base.antt =====
-- The names that the modules of this library share: the libraries', passed on, Boolean tests,
-- lists over the native numbers, integers, texts, maps keyed by host, and results with errors.
mod Tests
mod Lists
mod Errors
pub mod Int
pub mod Text
pub mod Hosts
pub use Tests.*
unfoldable pub use Lists.*
pub use Errors.{
  Error, not_found, exists, malformed, failed, Result, ok, err, ◌>>=◌, ◌>>◌, >>=-eq-ok,
}
pub use Text.{str_eq, str_eq_refl, eq_iff, contains}
pub use Hosts.{HostMap, or_zero}
pub use Prim.Native.Nat.{ℕ, zero, suc, ◌+◌, ◌-◌, ◌*◌, ◌/◌, ◌%◌, ◌^◌, ◌≤◌, ◌<◌}
pub use Prim.Native.String.{String}
pub use mathlib.Core.Path.{◌≡◌, refl, sym, ap, ◌∙◌}
pub use mathlib.Core.Logic.{◌≢◌, ◌↔◌, ◌⊎◌, inl, inr}
pub use mathlib.Core.Bool.{Bool, true, false, not, ◌&&◌, ◌||◌}
pub use mathlib.Core.Option.{Option, none, some}
pub use mathlib.Core.List.{List, [], ◌∷◌, ◌++◌, map}
pub use native.Mathlib.Omega.{arith}
