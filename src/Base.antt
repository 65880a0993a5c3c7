-- ===== src/Base.antt =====
-- What the other modules share: names of the libraries, Boolean tests, lists, options, dictionaries
-- and the errors of server/src/errors.ts.
mod Tests
mod Lists
pub mod Eq
pub mod JsMap
pub mod Failure
pub mod Errors
pub mod Text
pub use Tests.*
pub use Lists.*
pub use Failure.{AppError, Result, ok, err}
pub use Prim.Native.Nat.{ℕ, zero, suc, ◌+◌, ◌-◌, ◌*◌, ◌/◌, ◌%◌, ◌^◌, ◌≤◌, ◌<◌, min, max}
pub use Prim.Native.String.{String}
pub use mathlib.Core.Path.{◌≡◌, refl, sym, ap, ap₂, ◌∙◌}
pub use mathlib.Core.Logic.{◌≢◌, ◌↔◌, ◌⊎◌, inl, inr}
pub use mathlib.Core.Bool.{Bool, true, false, not, ◌&&◌, ◌||◌}
pub use mathlib.Core.Option.{Option, none, some}
pub use mathlib.Core.List.{List, [], ◌∷◌, ◌++◌, map}
pub use native.Mathlib.Omega.{arith}
