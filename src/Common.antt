-- ===== src/Common.antt =====
-- The names that the other modules share: the libraries', passed on, and those of the children.
mod Tests
mod Lists
mod Strings
mod Paths
mod Results
mod Bytes
mod Int
mod Suffixes
mod Find
pub use Tests.*
pub use Lists.*
pub use Results.*
unfoldable pub use Bytes.{to_le_bytes, from_le_bytes}
pub use Bytes.{length-to_le_bytes, from_le_bytes-to_le_bytes, to_le_bytes-injective}
pub use Int.*
pub use Suffixes.*
pub use Prim.Native.Nat.{ℕ, zero, suc, ◌+◌, ◌-◌, ◌*◌, ◌/◌, ◌%◌, ◌^◌, ◌≤◌, ◌<◌, min, max}
pub use mathlib.Core.Path.{◌≡◌, refl, sym, ap, ◌∙◌, subst}
pub use mathlib.Core.Logic.{◌≢◌, ◌↔◌, ◌⊎◌, inl, inr}
pub use mathlib.Core.Bool.{Bool, true, false, not, ◌&&◌, ◌||◌}
pub use mathlib.Core.Option.{Option, none, some}
pub use mathlib.Core.List.{List, [], ◌∷◌, ◌++◌, map, append-nil, append_assoc}
pub use native.Mathlib.Omega.{arith}
unfoldable pub use Strings.{
  Text, codes, text_eq, starts_with, ends_with, contains, to_lower, to_ascii_lowercase,
}
pub use Strings.{
  text_eq_refl, text_eq→eq, ends_with_self, ends_with-append, starts_with-append, starts_with→eq,
  to_lower_append,
}
unfoldable pub use Paths.{FilePath, path_eq, parent, path_mem, path_starts_with, strip_prefix}
unfoldable pub use Find.{next_index, find}
pub use Find.{find_past, starts_with-prefix}
pub use Paths.{path_eq_refl, path_eq→eq, path_starts_with-drop}
