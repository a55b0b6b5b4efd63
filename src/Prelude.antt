-- ===== src/Prelude.antt =====
-- The names that the other modules share.
mod Tests
mod Lists
mod Int
mod Ctype
mod Text
mod Loop
mod Arrays
mod Bits
pub use Tests.*
unfoldable pub use Tests.{holds_below}
pub use Bits.{has_bit, complement, bit_and-halves, bit_test-eq, has_bit-bit_and, has_bit-complement}
unfoldable pub use Bits.{bit_test}
pub use Lists.*
pub use Int.*
unfoldable pub use Loop.{repeat}
pub use Loop.{repeat_ends, repeat_more}
pub use Text.*
unfoldable pub use Arrays.{last_of, but_last_of, fill_from_end, sift, keep_if}
pub use Arrays.{fill_from_end-perm, length-fill_from_end, kept}
pub use Ctype.{signed8, signed32, negate}
unfoldable pub use Ctype.{isdigit, islower}
pub use Prim.Native.Nat.{ℕ, zero, suc, ◌+◌, ◌-◌, ◌*◌, ◌/◌, ◌%◌, ◌^◌, ◌≤◌, ◌<◌}
pub use mathlib.Core.Path.{◌≡◌, refl, sym, ap, ◌∙◌}
pub use mathlib.Core.Logic.{◌≢◌, ◌↔◌, ◌⊎◌, inl, inr}
pub use mathlib.Core.Bool.{Bool, true, false, not, ◌&&◌, ◌||◌}
pub use mathlib.Core.Option.{Option, none, some}
pub use mathlib.Core.List.{List, [], ◌∷◌, ◌++◌, map}
pub use native.Mathlib.Omega.{arith}
