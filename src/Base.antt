-- ===== src/Base.antt =====
-- Names that the components share: the libraries', passed on, and those of the children. No code of
-- the program is modelled here but Go's own operations on numbers, texts and slices.
mod Tests
mod Lists
mod Int
mod Text
mod Monad
mod Sort
mod Ascending
mod Members
mod Float
mod Strings
unfoldable pub use Tests.*
unfoldable pub use Lists.*
unfoldable pub use Int.*
unfoldable pub use Text.*
unfoldable pub use Monad.*
unfoldable pub use Sort.*
pub use Ascending.*
pub use Members.*
pub use Float.*
unfoldable pub use Strings.*
pub use Prim.Native.Nat.{ℕ, zero, suc, ◌+◌, ◌-◌, ◌*◌, ◌/◌, ◌%◌, ◌^◌, ◌≤◌, ◌<◌}
pub use mathlib.Core.Path.{◌≡◌, refl, sym, ap, ◌∙◌, subst, fun_ext}
pub use mathlib.Core.Logic.{◌≢◌, ◌↔◌, ◌⊎◌, inl, inr}
pub use mathlib.Core.Bool.{Bool, true, false, not, ◌&&◌, ◌||◌}
pub use mathlib.Core.Option.{Option, none, some}
pub use mathlib.Core.List.{List, [], ◌∷◌, ◌++◌, map, append_assoc, append-nil}
pub use native.Mathlib.Omega.{arith}
