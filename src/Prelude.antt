-- ===== src/Prelude.antt =====
-- The names that the other modules share: the libraries', passed on, and those of the children.
mod Tests
mod Lists
mod Sets
mod Panic
mod Bytes
mod Texts
pub mod Compare
pub mod Outcome
pub use Tests.*
pub use Lists.*
unfoldable pub use Sets.{insert}
pub use Sets.{IsAbove, IsAscending, IsAbove-elem, IsAbove-not-elem, elem-insert, insert-IsAscending}
pub use Bytes.*
unfoldable pub use Bytes.{split, split_once, ends_with, trim_end_matches, show_u64, join}
pub use Texts.*
unfoldable pub use Texts.{char_count, encode_utf16}
pub use Panic.*
pub use Prim.Native.Nat.{ℕ, zero, suc, ◌+◌, ◌-◌, ◌*◌, ◌/◌, ◌%◌, ◌^◌, ◌≤◌, ◌<◌}
pub use Prim.Native.String.{String}
pub use mathlib.Core.Path.{◌≡◌, refl, sym, ap, ap₂, subst, ◌∙◌}
pub use mathlib.Core.Logic.{◌≢◌, ◌↔◌, ◌⊎◌, inl, inr}
pub use mathlib.Core.Bool.{Bool, true, false, not, ◌&&◌, ◌||◌}
pub use mathlib.Core.Option.{Option, none, some}
pub use mathlib.Core.List.{List, [], ◌∷◌, ◌++◌, map, append_assoc, append-nil}
pub use native.Mathlib.Omega.{arith}
