-- ===== src/Base.antt =====
-- The names that the other modules share: the libraries', passed on, and those of the children.
mod Tests
mod Lists
mod Table
mod Keys
mod Counting
mod Bind
pub use Tests.*
pub use Counting.*
pub use Bind.*
pub use Keys.{
  is_some-hash_find, map-hash_add, map-hash_del, length-hash_del, All-hash_del, All-hash_add,
  find_before, hash_del-middle, hash_find-middle, hash_del-filter,
}
unfoldable pub use Keys.{del_key}
pub use Lists.{
  Bytes, codes, length, take, any, count, filter, All, length-append, length-take,
  take_of_length-le, take-append, In, In-append_left, In-append_right, In-append_split, str_eq_iff,
  str_eq_refl,
}
unfoldable pub use Lists.{str_eq, starts_with, has_byte}
pub use Table.{
  hash_add, IsKeyed, IsKeyed-All, hash_find-key, hash_find-add, IsKeyed-hash_add,
  hash_find-del_self, hash_find-del_ne, hash_del_absent, IsKeyed-hash_del, hash_find-set,
  IsKeyed-hash_set,
}
unfoldable pub use Table.{hash_find, hash_del, hash_set}
pub use Prim.Native.Nat.{ℕ, zero, suc, ◌+◌, ◌-◌, ◌*◌, ◌≤◌, ◌<◌, bit_and, bit_or}
pub use mathlib.Core.Path.{◌≡◌, refl, sym, ap, ◌∙◌}
pub use mathlib.Core.Logic.{◌≢◌, ◌↔◌, ◌⊎◌, inl, inr}
pub use mathlib.Core.Bool.{Bool, true, false, not, ◌&&◌, ◌||◌}
pub use mathlib.Core.Option.{Option, none, some}
pub use mathlib.Core.List.{List, [], ◌∷◌, ◌++◌, map, reverse, append-nil, append_assoc}
pub use native.Mathlib.Omega.{arith}
