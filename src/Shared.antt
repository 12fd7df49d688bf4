-- ===== src/Shared.antt =====
-- The names that every component shares: the libraries' names passed on, and the children's tests,
-- lists, signed numbers and texts. No code of the repository is modelled in this file.
mod Tests
mod Lists
mod Int
mod Bytes
pub use Tests.*
pub use Lists.*
pub use Int.*
pub use Bytes.*
pub use Prim.Native.Nat.{ℕ, zero, suc, ◌+◌, ◌-◌, ◌*◌, ◌/◌, ◌%◌, ◌^◌, ◌≤◌, ◌<◌}
pub use mathlib.Core.Path.{◌≡◌, refl, sym, ap, subst, ◌∙◌}
pub use mathlib.Core.Logic.{◌≢◌, ◌↔◌, ◌⊎◌, inl, inr}
pub use mathlib.Core.Bool.{Bool, true, false, not, ◌&&◌, ◌||◌}
pub use mathlib.Core.Option.{Option, none, some}
pub use mathlib.Core.List.{List, [], ◌∷◌, ◌++◌, map, append-nil, append_assoc, append_cancel_left}
pub use native.Mathlib.Omega.{arith}
