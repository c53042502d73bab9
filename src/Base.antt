-- ===== src/Base.antt =====
-- The names that the other modules share: those of the libraries, passed on, and those of the
-- children: tests on numbers (Tests), lists (Lists), big-endian bytes (Bytes), fallible results
-- and the readers and writers of package io (Io).
mod Tests
mod Lists
mod Bytes
mod Io
pub mod Action
pub mod Writing
pub mod Text
pub use Tests.*
pub use Lists.*
unfoldable pub use Bytes.{put_uint16, put_uint32, put_uint64, uint16, uint32, uint64, bytes_eq}
pub use Bytes.{
  IsByte, IsU16, IsU32, IsU64, uint16-put, uint32-put, uint64-put, put-uint16, put-uint32,
  put-uint64, uint32-IsU32, uint64-IsU64, uint16-IsU16, bytes_eq_iff,
}
pub use Io.{Result, ok, err, ◌>>=◌, ◌>>◌, guard, IoError, Writer}
pub use Io.{read_full-append, read_full_sound}
unfoldable pub use Io.{read_full, write_once, accepting}
pub use Prim.Native.Nat.{ℕ, zero, suc, ◌+◌, ◌-◌, ◌*◌, ◌/◌, ◌%◌, ◌^◌, ◌≤◌, ◌<◌, min}
pub use mathlib.Core.Path.{◌≡◌, refl, sym, ap, ◌∙◌, subst}
pub use mathlib.Core.Logic.{◌≢◌, ◌↔◌, ◌⊎◌, inl, inr}
pub use mathlib.Core.Bool.{Bool, true, false, not, ◌&&◌, ◌||◌}
pub use mathlib.Core.Option.{Option, none, some}
pub use mathlib.Core.List.{List, [], ◌∷◌, ◌++◌, map, append-nil, append_assoc}
pub use native.Mathlib.Omega.{arith}
