-- ===== src/Base.antt =====
-- The names that every part shares: the libraries' names passed on, Boolean tests on the native
-- numbers, and lists measured and cut by native numbers.
mod Bools
mod Lists
mod Slices
mod Int
mod Text
unfoldable pub use Bools.*
pub use Lists.*
pub use Slices.*
pub use Int.*
pub use Text.*
pub use Prim.Native.Nat.{ℕ, zero, suc, ◌+◌, ◌-◌, ◌*◌, ◌/◌, ◌%◌, ◌^◌, ◌≤◌, ◌<◌}
pub use mathlib.Core.Path.{◌≡◌, refl, sym, ap, ap₂, ◌∙◌, fun_ext}
pub use mathlib.Core.Logic.{◌≢◌, ◌↔◌, ◌⊎◌, inl, inr}
pub use mathlib.Core.Bool.{Bool, true, false, not, ◌&&◌, ◌||◌}
pub use mathlib.Core.Option.{Option, none, some}
pub use mathlib.Core.List.{List, [], ◌∷◌, ◌++◌, map, append-nil, append_assoc}
pub use native.Mathlib.Omega.{arith}

-- A byte string; a byte is a number below 256.
abbrev pub Bytes : Type 0
Bytes = List ℕ
