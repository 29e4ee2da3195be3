-- ===== src/Prelude.antt =====
-- The names that the other modules share: the libraries', passed on, and those of the children.
mod Tests
mod Lists
mod Texts
mod Maps
mod Ordering
mod Results
pub use Tests.*
pub use Lists.*
pub use Results.*
unfoldable pub use Texts.{text_eq, starts_with}
pub use Texts.{Text, codes, text_eq_iff, text_eq_refl, text_eq-false}
unfoldable pub use Ordering.{text_less}
pub use Ordering.{text_less_irrefl, text_less_trans, text_less-total}
unfoldable pub use Maps.{lookup, insert, contains}
pub use Maps.{lookup-insert}
pub use Prim.Native.Nat.{ℕ, zero, suc, ◌+◌, ◌-◌, ◌*◌, ◌/◌, ◌%◌, ◌^◌, ◌≤◌, ◌<◌}
pub use Prim.Native.String.{String}
pub use mathlib.Core.Path.{◌≡◌, refl, sym, ap, subst, ◌∙◌}
pub use mathlib.Core.Logic.{◌≢◌, ◌↔◌, ◌⊎◌, inl, inr}
pub use mathlib.Core.Bool.{Bool, true, false, ◌&&◌, ◌||◌, not}
pub use mathlib.Core.Option.{Option, none, some}
pub use mathlib.Core.List.{List, [], ◌∷◌, ◌++◌, map, append_assoc, append-nil}
pub use native.Mathlib.Omega.{arith}
