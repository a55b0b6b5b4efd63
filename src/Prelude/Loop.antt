-- ===== src/Prelude/Loop.antt =====
-- A `while` loop with fuel: `repeat fuel go body s` runs `body` as long as `go` allows.
use Prim.Native.Nat.{ℕ, zero, suc, ◌+◌, ◌<◌}
use mathlib.Core.Path.{◌≡◌, refl}
use mathlib.Core.Logic.{inl, inr}
use mathlib.Core.Bool.{Bool, true, false}
use native.Mathlib.Nat.{zero-add, suc-add}
use native.Mathlib.Omega.{arith}
use arianna_method_anchor_pr.Prelude.Tests.{Bool-cases}

module _ {ℓ} {S : Type ℓ} where
  unfoldable pub repeat : ℕ → (S → Bool) → (S → S) → S → S
  repeat zero go body s = s
  repeat (suc fuel) go body s = elim (go s) [ true ↦ repeat fuel go body (body s) | false ↦ s ]

  -- A weight that falls in each round and starts below the fuel: the loop ends by its own test.
  pub repeat_ends :
      (go : S → Bool) (body : S → S) (weight : S → ℕ)
      → (falls : (s : S) → go s ≡ true → weight (body s) < weight s) → (s : S) (fuel : ℕ)
      → weight s < fuel
      → go (repeat fuel go body s) ≡ false
  unfolding repeat
  repeat_ends go body weight falls s zero w = absurd (omega arith)
  repeat_ends go body weight falls s (suc fuel) w = elim (Bool-cases (go s)) [
    | inl e ↦
        let less = falls s e in
        rw (e, repeat) (repeat_ends go body weight falls (body s) fuel (omega arith))
    | inr e ↦ rw (e, repeat) e
  ]

  -- Once the loop has ended by its test, more fuel changes nothing.
  pub repeat_more :
      (go : S → Bool) (body : S → S) (fuel extra : ℕ) (s : S)
      → go (repeat fuel go body s) ≡ false
      → repeat (fuel + extra) go body s ≡ repeat fuel go body s
  unfolding repeat
  repeat_more go body zero zero s h = refl
  repeat_more go body zero (suc extra) s h = rw (zero-add, repeat, h) refl
  repeat_more go body (suc fuel) extra s h = rw suc-add (elim (Bool-cases (go s)) [
    | inl e ↦ rw (e, repeat) (repeat_more go body fuel extra (body s) (rw (e, repeat) at h))
    | inr e ↦ rw (e, repeat) refl
  ])
