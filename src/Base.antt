-- ===== src/Base.antt =====
-- The names that every module shares: the libraries', passed on, and those of the children.
-- Nothing here models a file of the repository; `Base.Text` models the operations of JavaScript's
-- strings that the sources call.
pub mod Tests
pub mod Lists
pub mod Text
pub mod Digits
pub mod Decimal
pub mod Json
pub mod Assoc
pub use Tests.*
pub use Lists.*
pub use Prim.Native.Nat.{ℕ, zero, suc, ◌+◌, ◌-◌, ◌*◌, ◌/◌, ◌%◌, ◌^◌, ◌≤◌, ◌<◌, min, max}
pub use Prim.Native.String.{String}
pub use mathlib.Core.Path.{◌≡◌, refl, sym, ap, ◌∙◌, subst, ◌≡⟨◌⟩◌, ◌∎}
pub use mathlib.Core.Logic.{◌≢◌, ◌↔◌, ◌⊎◌, inl, inr}
pub use mathlib.Core.Bool.{Bool, true, false, not, ◌&&◌, ◌||◌}
pub use mathlib.Core.Option.{Option, none, some}
pub use mathlib.Core.List.{List, [], ◌∷◌, ◌++◌, map, append-nil, append_assoc}
pub use native.Mathlib.Omega.{arith}
pub mod Answers
pub mod Members
pub mod Exchange
