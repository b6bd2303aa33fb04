-- ===== src/Common.antt =====
-- Names shared by the models: the libraries' names passed on, tests on numbers, lists with native
-- indices, fallible steps, and machine words.
mod Tests
mod Lists
mod Steps
mod Slices
mod Arrays
pub mod Int
pub mod Text
pub use Tests.*
pub use Lists.*
pub use Steps.*
pub use Slices.*
unfoldable pub use Arrays.{copy_in, copy_out}
pub use Arrays.{CopiedIn, copy_in-CopiedIn, copy_out-at}
pub use Prim.Native.Nat.{ℕ, zero, suc, ◌+◌, ◌-◌, ◌*◌, ◌/◌, ◌%◌, ◌^◌, ◌≤◌, ◌<◌, min}
pub use mathlib.Core.Path.{◌≡◌, refl, sym, ap, ap₂, subst, ◌∙◌}
pub use mathlib.Core.Logic.{◌≢◌, ◌↔◌, ◌⊎◌, inl, inr}
pub use mathlib.Core.Bool.{Bool, true, false, not, ◌&&◌, ◌||◌}
pub use mathlib.Core.Option.{Option, none, some}
pub use mathlib.Core.List.{List, [], ◌∷◌, ◌++◌, map}
pub use native.Mathlib.Omega.{arith}
unfoldable pub use native.Mathlib.Decide.{dec_lt, ℕ_discrete}

-- `unsigned int` and `size_t` arithmetic wraps.
abbrev pub u32_mod : ℕ
u32_mod = 4294967296

abbrev pub u64_mod : ℕ
u64_mod = 18446744073709551616
