-- ===== src/Blob/Number/Laws.antt =====
-- Numbers are read back as they were written.
use native.Mathlib.Nat.{pow-suc, div-add-mod}
use arianna_method_anchor_pr.Prelude.{
  ℕ, zero, suc, ◌+◌, ◌*◌, ◌/◌, ◌%◌, ◌^◌, ◌≤◌, ◌<◌, ◌≡◌, ◌≢◌, ◌∙◌, refl, ap, not, none, List, [],
  ◌∷◌, ◌++◌, arith, ◌==◌, if◌then◌else◌, holds_below, holds_below_sound, Bool-cases, inl, inr,
}
use arianna_method_anchor_pr.Blob.Hex.{xd, dx, dx-xd}
use arianna_method_anchor_pr.Blob.Number.{digits_loop, uint_loop, digit_of, pull_uint, uint_text}

-- A text that begins with no digit of the radix.
abbrev pub Ends : ℕ → List ℕ → Type 0
Ends radix [] = Unit
Ends radix (c ∷ s) = (if c == 0 then none else digit_of radix (dx c)) ≡ none

xd_nonzero : (i : ℕ) → i < 16 → xd i ≢ 0
xd_nonzero i h =
    ground (arith, holds_below_sound (λ j. not (xd j == 0)) 16 i h (unfold holds_below xd in refl))

-- Reading one digit of the radix.
pub uint_loop-digit :
    (radix v i : ℕ) (s : List ℕ)
    → radix ≤ 16
    → i < radix
    → uint_loop radix v (xd i ∷ s) ≡ uint_loop radix ((v * radix % 2 ^ 32 + i) % 2 ^ 32) s
unfolding uint_loop
uint_loop-digit radix v i s h lt = ground (arith, xd_nonzero i (omega arith), dx-xd i (omega arith))

div_halves : (value radix : ℕ) → 2 ≤ radix → 2 * (value / radix) ≤ value
div_halves value radix h = grind (arith, div-add-mod)

div_mod_back : (value radix : ℕ) → value / radix * radix + value % radix ≡ value
div_mod_back value radix = grind (arith, div-add-mod)

uint_loop-digits :
    (fuel value radix : ℕ) (buf rest : List ℕ)
    → 2 ≤ radix
    → radix ≤ 16
    → value < 2 ^ 32
    → value < 2 ^ fuel
    → uint_loop radix 0 (digits_loop fuel value radix buf ++ rest)
      ≡ uint_loop radix value (buf ++ rest)
unfolding digits_loop
uint_loop-digits zero zero radix buf rest lo hi w f = refl
uint_loop-digits zero (suc value) radix buf rest lo hi w f = absurd (omega arith)
uint_loop-digits (suc fuel) value radix buf rest lo hi w f = elim (Bool-cases (value == 0)) [
  | inl e ↦ ground arith
  | inr e ↦
      let half = div_halves value radix lo in
      let ih =
        uint_loop-digits fuel (value / radix) radix (xd (value % radix) ∷ buf) rest lo hi
          (omega arith) (omega (arith, pow-suc 2 fuel)) in
      let digit =
        uint_loop-digit radix (value / radix) (value % radix) (buf ++ rest) hi (omega arith) in
      let back = div_mod_back value radix in
      rw e (ih ∙ digit ∙ ap (λ n. uint_loop radix n (buf ++ rest)) (omega (arith, back)))
]

pub uint_loop-Ends :
    (radix v : ℕ) (rest : List ℕ) → Ends radix rest → uint_loop radix v rest ≡ (v, rest)
unfolding uint_loop
uint_loop-Ends radix v [] h = refl
uint_loop-Ends radix v (c ∷ s) h = rw (h, uint_loop) refl

uint_loop-zero :
    (radix : ℕ) (rest : List ℕ)
    → 2 ≤ radix
    → radix ≤ 16
    → Ends radix rest
    → uint_loop radix 0 (b'0' ∷ rest) ≡ (0, rest)
unfolding xd
uint_loop-zero radix rest lo hi ends =
    uint_loop-digit radix 0 0 rest hi (omega arith)
    ∙ ap (λ n. uint_loop radix n rest) (omega arith)
    ∙ uint_loop-Ends radix 0 rest ends

-- `apk_blob_pull_uint` takes back the text that `apk_blob_push_uint` writes of any 32-bit value in
-- any radix from 2 to 16, and stops in front of what follows, if that begins with no digit of the
-- radix.
pub pull_uint-uint_text :
    (value radix : ℕ) (rest : List ℕ)
    → 2 ≤ radix
    → radix ≤ 16
    → value < 2 ^ 32
    → Ends radix rest
    → pull_uint (uint_text value radix ++ rest) radix ≡ (value, rest)
unfolding pull_uint uint_text
pull_uint-uint_text value radix rest lo hi w ends = elim (Bool-cases (value == 0)) [
  | inl e ↦ rw e (uint_loop-zero radix rest lo hi ends ∙ ground arith)
  | inr e ↦ rw e (
      uint_loop-digits 64 value radix [] rest lo hi w (omega arith)
      ∙ uint_loop-Ends radix value rest ends)
]
