-- ===== src/Prelude/Ctype.antt =====
-- The tests of <ctype.h> in the C locale, and the readings of bytes and words as C integers.
use Prim.Native.Nat.{ℕ, zero, suc, ◌-◌, ◌^◌}
use mathlib.Core.Bool.{Bool, ◌&&◌}
use arianna_method_anchor_pr.Prelude.Tests.{ltb, leb, if◌then◌else◌}
use arianna_method_anchor_pr.Prelude.Int.{ℤ, pos, negsuc}

unfoldable pub isdigit : ℕ → Bool
isdigit c = leb b'0' c && leb c b'9'

unfoldable pub islower : ℕ → Bool
islower c = leb b'a' c && leb c b'z'

-- A `char` is signed on the machines that the build targets.
abbrev pub signed8 : ℕ → ℤ
signed8 c = if ltb c 128 then pos c else negsuc (255 - c)

-- The `int` of a 32-bit pattern.
abbrev pub signed32 : ℕ → ℤ
signed32 pattern = if leb (2 ^ 31) pattern then negsuc (2 ^ 32 - 1 - pattern) else pos pattern

abbrev pub negate : ℕ → ℤ
negate zero = pos 0
negate (suc n) = negsuc n
