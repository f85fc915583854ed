-- ===== src/Prelude.antt =====
-- The names that the other modules share: the libraries', passed on, and those of the children.
-- No code of the repository is modelled here.
mod Tests
mod Class
mod Lists
mod Counting
mod Finding
mod Dicts
mod Results
mod Text
mod Time
mod Int
pub use Tests.*
unfoldable pub use Class.{str_lt}
pub use Class.{
  Eq, string_eq, pair_beq_iff, pair_eq, option_beq_iff, option_eq, nat_eq, ◌==◌, Order, ltb_irrefl,
  ltb_trans, ltb_total, nat_order, str_lt_irrefl, str_lt_trans, str_lt_total, string_order,
  pair_lt_irrefl, pair_lt_total, pair_lt_trans, pair_order,
}
pub use Lists.*
pub use Counting.*
pub use Finding.*
unfoldable pub use Dicts.{lookup, insert, erase}
pub use Dicts.{
  Dict, lookup-insert, lookup-erase, lookup-append, lookup-insert_self, lookup-insert_ne,
  lookup-erase_self,
}
pub use Results.*
pub use Int.*
unfoldable pub use Text.{is_space, is_blank, is_padded, is_empty, text_length}
unfoldable pub use Time.{add_delta, sub_delta}
pub use Time.{Zone, naive, utc, other, Datetime, is_naive, is_utc, datetime_max, at}
pub use Prim.Native.Nat.{ℕ, zero, suc, ◌+◌, ◌-◌, ◌*◌, ◌/◌, ◌%◌, ◌≤◌, ◌<◌}
pub use Prim.Native.String.{String}
pub use mathlib.Core.Path.{◌≡◌, refl, sym, ap, ◌∙◌}
pub use mathlib.Core.Logic.{◌≢◌, ◌↔◌, ◌⊎◌, inl, inr}
pub use mathlib.Core.Bool.{Bool, true, false, not, ◌&&◌, ◌||◌}
pub use mathlib.Core.Option.{Option, none, some}
pub use mathlib.Core.List.{List, [], ◌∷◌, ◌++◌, map}
pub use native.Mathlib.Omega.{arith}
