-- ===== src/Prelude/Bits.antt =====
-- The bits of an unsigned integer, as `n & BIT(i)` tests them.
use Prim.Native.Nat.{
  ℕ, zero, suc, ◌+◌, ◌-◌, ◌*◌, ◌/◌, ◌%◌, ◌^◌, ◌≤◌, ◌<◌, min, bit_and, digits, bit_and-bitwise,
}
use mathlib.Core.Path.{◌≡◌, sym, ◌∙◌, ap}
use mathlib.Core.Bool.{Bool, not, ◌&&◌}
use native.Mathlib.Omega.{arith}
use native.Mathlib.Nat.{pow-succ'}
use arianna_method_anchor_pr.Prelude.Tests.{◌==◌}

-- The bit `i`.
abbrev pub has_bit : ℕ → ℕ → Bool
has_bit n zero = n % 2 == 1
has_bit n (suc i) = has_bit (n / 2) i

-- `(n & BIT(i)) != 0`
unfoldable pub bit_test : ℕ → ℕ → Bool
bit_test n i = not (bit_and n (2 ^ i) == 0)

-- `~n` on an `unsigned int`.
abbrev pub complement : ℕ → ℕ
complement n = 2 ^ 32 - 1 - n

-- What stands behind `x & y`, for any number of rounds.
abbrev meet : ℕ → ℕ → ℕ → ℕ
meet rounds x y = digits (λ z. zero) min rounds x y

-- Once there are as many rounds as `x` is large, `meet` is the native operation.
meet-bit_and : (bound rounds x y : ℕ) → x ≤ bound → x ≤ rounds → meet rounds x y ≡ bit_and x y
meet-bit_and bound zero zero y small enough = sym (bit_and-bitwise 0 y)
meet-bit_and bound (suc r) zero y small enough = sym (bit_and-bitwise 0 y)
meet-bit_and bound zero (suc x) y small enough = absurd (omega arith)
meet-bit_and zero (suc r) (suc x) y small enough = absurd (omega arith)
meet-bit_and (suc m) (suc r) (suc x) y small enough =
    let here = meet-bit_and m r (suc x / 2) (y / 2) (omega arith) (omega arith) in
    let there = meet-bit_and m x (suc x / 2) (y / 2) (omega arith) (omega arith) in
    ap (λ k. k * 2 + min (suc x % 2) (y % 2)) (here ∙ sym there) ∙ sym (bit_and-bitwise (suc x) y)

-- The bits of `x & y` above the lowest one are those of the halves.
pub bit_and-halves : (x y : ℕ) → bit_and x y ≡ bit_and (x / 2) (y / 2) * 2 + min (x % 2) (y % 2)
bit_and-halves zero y =
    let a = bit_and-bitwise 0 y in let b = bit_and-bitwise 0 (y / 2) in omega (arith, a, b)
bit_and-halves (suc x) y =
    bit_and-bitwise (suc x) y
    ∙ ap (λ k. k * 2 + min (suc x % 2) (y % 2))
        (meet-bit_and (suc x) x (suc x / 2) (y / 2) (omega arith) (omega arith))

bit_and_nothing : (bound x : ℕ) → x ≤ bound → bit_and x 0 ≡ 0
bit_and_nothing bound zero small = bit_and-bitwise 0 0
bit_and_nothing zero (suc x) small = absurd (omega arith)
bit_and_nothing (suc m) (suc x) small =
    let half = bit_and_nothing m (suc x / 2) (omega arith) in
    omega (arith, bit_and-halves (suc x) 0, half)

not_zero-twice : (m k : ℕ) → m ≡ k * 2 → (not (m == 0)) ≡ (not (k == 0))
not_zero-twice m k h = ground arith

-- The test finds the bit.
pub bit_test-eq : (i n : ℕ) → bit_test n i ≡ has_bit n i
unfolding bit_test
bit_test-eq zero n = ground (arith, bit_and-halves n 1, bit_and_nothing (n / 2) (n / 2))
bit_test-eq (suc i) n =
    let p : 2 ^ suc i ≡ 2 * 2 ^ i = pow-succ' 2 i in
    let q = ap (λ (k : ℕ). bit_and n k) p in
    let r : 2 * 2 ^ i / 2 ≡ 2 ^ i = omega arith in
    let t = ap (λ (k : ℕ). bit_and (n / 2) k) r in
    let twice : bit_and n (2 ^ suc i) ≡ bit_and (n / 2) (2 ^ i) * 2 =
      omega (arith, q, bit_and-halves n (2 * 2 ^ i), t) in
    not_zero-twice (bit_and n (2 ^ suc i)) (bit_and (n / 2) (2 ^ i)) twice ∙ bit_test-eq i (n / 2)

-- The bits of `a & b`.
pub has_bit-bit_and : (i a b : ℕ) → has_bit (bit_and a b) i ≡ (has_bit a i && has_bit b i)
has_bit-bit_and zero a b = ground (arith, bit_and-halves a b)
has_bit-bit_and (suc i) a b =
    let half : bit_and a b / 2 ≡ bit_and (a / 2) (b / 2) = omega (arith, bit_and-halves a b) in
    ap (λ (k : ℕ). has_bit k i) half ∙ has_bit-bit_and i (a / 2) (b / 2)

odd_complement : (m k n : ℕ) → m ≡ 2 * k → n < m → ((m - 1 - n) % 2 == 1) ≡ not (n % 2 == 1)
odd_complement m k n e h = ground arith

complement_below : (w i n : ℕ) → i < w → n < 2 ^ w → has_bit (2 ^ w - 1 - n) i ≡ not (has_bit n i)
complement_below zero i n h k = absurd (omega arith)
complement_below (suc w) zero n h k =
    let p = pow-succ' 2 w in odd_complement (2 ^ suc w) (2 ^ w) n p k
complement_below (suc w) (suc i) n h k =
    let half : (2 ^ suc w - 1 - n) / 2 ≡ 2 ^ w - 1 - n / 2 = omega (arith, pow-succ' 2 w) in
    ap (λ (k : ℕ). has_bit k i) half
    ∙ complement_below w i (n / 2) (omega arith) (omega (arith, pow-succ' 2 w))

-- The bits of `~n`.
pub has_bit-complement :
    (i n : ℕ) → i < 32 → n < 2 ^ 32 → has_bit (complement n) i ≡ not (has_bit n i)
has_bit-complement i n = complement_below 32 i n
