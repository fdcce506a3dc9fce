-- ===== src/Common.antt =====
-- Names shared by every module: the library's, passed on, tests on numbers, lists, dictionaries
-- and the interface of keys that are compared by `==`.
mod Tests
mod Lists
mod Keys
pub mod Newest
pub mod Spaced
pub mod Dict
pub mod Bag
pub mod Subseq
pub mod Member
pub mod Tally
pub use Tests.*
pub use Lists.*
pub use Keys.*
pub use Prim.Native.Nat.{ℕ, zero, suc, ◌+◌, ◌-◌, ◌*◌, ◌/◌, ◌%◌, ◌≤◌, ◌<◌, min, max}
pub use mathlib.Core.Path.{◌≡◌, refl, sym, ap, ◌∙◌, subst}
pub use mathlib.Core.Logic.{◌≢◌, ◌↔◌, ◌⊎◌, inl, inr}
pub use mathlib.Core.Bool.{Bool, true, false, not, ◌&&◌, ◌||◌}
pub use mathlib.Core.Option.{Option, none, some}
pub use mathlib.Core.List.{List, [], ◌∷◌, ◌++◌, map, append-nil, append_assoc}
pub use native.Mathlib.Omega.{arith}
