-- ===== src/Archive/Octal.antt =====
-- apk-tools/src/archive.c: octal fields are read back as they were written.
use native.Mathlib.Nat.{pow-suc}
use arianna_method_anchor_pr.Prelude.{
  ℕ, zero, suc, ◌+◌, ◌-◌, ◌*◌, ◌/◌, ◌%◌, ◌^◌, ◌≤◌, ◌<◌, ◌≡◌, ◌∙◌, refl, ap, sym, List, [], ◌∷◌,
  length, pos, arith, ◌==◌, holds_below, holds_below_sound, Bool-cases, inl, inr,
}
use arianna_method_anchor_pr.Blob.Hex.{xd}
use arianna_method_anchor_pr.Blob.Number.{uint_loop, pull_uint}
use arianna_method_anchor_pr.Blob.Number.Laws.{uint_loop-digit, uint_loop-Ends}
use arianna_method_anchor_pr.Archive.{get_octal, zero_loop, octal_loop, put_octal}

xd_octal : (i : ℕ) → i < 8 → xd i ≡ b'0' + i
xd_octal i h =
    ground (arith, holds_below_sound (λ j. xd j == b'0' + j) 8 i h (unfold holds_below xd in refl))

octal_digit :
    (v i : ℕ) (s : List ℕ)
    → i < 8
    → uint_loop 8 v ((b'0' + i) ∷ s) ≡ uint_loop 8 ((v * 8 % 2 ^ 32 + i) % 2 ^ 32) s
octal_digit v i s h =
    ap (λ c. uint_loop 8 v (c ∷ s)) (sym (xd_octal i h)) ∙ uint_loop-digit 8 v i s (omega arith) h

uint_loop-zero_loop : (n : ℕ) (s : List ℕ) → uint_loop 8 0 (zero_loop n s) ≡ uint_loop 8 0 s
uint_loop-zero_loop zero s = refl
uint_loop-zero_loop (suc n) s = uint_loop-zero_loop n (b'0' ∷ s) ∙ octal_digit 0 0 s (omega arith)

value_back : (value : ℕ) → value < 2 ^ 32 → (value / 8 * 8 % 2 ^ 32 + value % 8) % 2 ^ 32 ≡ value
value_back value h = omega arith

uint_loop-octal_loop :
    (n value : ℕ) (s : List ℕ)
    → value < 8 ^ n
    → value < 2 ^ 32
    → uint_loop 8 0 (octal_loop n value s) ≡ uint_loop 8 value s
unfolding octal_loop
uint_loop-octal_loop zero value s h w = let e : value ≡ 0 = omega arith in rw e refl
uint_loop-octal_loop (suc n) value s h w = elim (Bool-cases (value == 0)) [
  | inl e ↦
      let z : value ≡ 0 = ground arith in
      rw e (uint_loop-zero_loop (suc n) s ∙ ap (λ v. uint_loop 8 v s) (sym z))
  | inr e ↦ rw e (
      uint_loop-octal_loop n (value / 8) ((b'0' + value % 8) ∷ s) (omega (arith, pow-suc 8 n))
        (omega arith)
      ∙ octal_digit (value / 8) (value % 8) s (omega arith)
      ∙ ap (λ v. uint_loop 8 v s) (value_back value w))
]

length-zero_loop : (n : ℕ) (s : List ℕ) → length (zero_loop n s) ≡ n + length s
length-zero_loop zero s = omega arith
length-zero_loop (suc n) s = omega (arith, length-zero_loop n (b'0' ∷ s))

pub length-octal_loop : (n value : ℕ) (s : List ℕ) → length (octal_loop n value s) ≡ n + length s
unfolding octal_loop
length-octal_loop zero value s = omega arith
length-octal_loop (suc n) value s =
    ground
      (arith, length-zero_loop (suc n) s, length-octal_loop n (value / 8) ((b'0' + value % 8) ∷ s))

-- `put_octal` fills its field of `l` bytes exactly, and `get_octal` reads the number back from it,
-- if it has at most `l - 1` octal digits and is an `int`.
pub get_octal-put_octal :
    (l value : ℕ)
    → 1 ≤ l
    → value < 8 ^ (l - 1)
    → value < 2 ^ 31
    → (get_octal (put_octal l value) ≡ pos value) × (length (put_octal l value) ≡ l)
unfolding get_octal put_octal pull_uint
get_octal-put_octal l value h d w =
    let e : uint_loop 8 0 (octal_loop (l - 1) value (0 ∷ [])) ≡ (value, 0 ∷ []) =
      uint_loop-octal_loop (l - 1) value (0 ∷ []) d (omega arith)
      ∙ uint_loop-Ends 8 value (0 ∷ []) refl in
    let n = length-octal_loop (l - 1) value (0 ∷ []) in (rw e (ground arith), omega arith)
