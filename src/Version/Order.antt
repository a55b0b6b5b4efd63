-- ===== src/Version/Order.antt =====
-- Laws of the loops and of the comparison of apk-tools/src/version.c.
use arianna_method_anchor_pr.Prelude.{
  ℕ, zero, suc, ◌+◌, ◌*◌, ◌≡◌, refl, true, false, not, ◌&&◌, Option, none, some, List, arith, ltb,
  ◌==◌, if◌then◌else◌, length, ◌⊎◌, ltb_ℤ, int_eq, ℤ, repeat, repeat_ends, repeat_more, Bool-cases,
  inl, inr,
}
use arianna_method_anchor_pr.Version.{Side}
use arianna_method_anchor_pr.Version.Compare.{
  equal, less, greater, op_string, result_mask, start, advance, is_last, validate_loop, agree,
  advance_both, compare_loop, verdict, compare_strings, compare_blob,
}
use arianna_method_anchor_pr.Version.Progress.{weight, advance-weight}

-- The validation of every version string ends by the loop's own test, within the fuel that
-- `validate` gives it, and more fuel leaves the last token as it is.
pub validate_loop_ends :
    (ver : List ℕ) (extra : ℕ)
    → let fuel = 2 * length ver + 3 in
      (is_last (validate_loop fuel (start ver)).part ≡ true)
      × (validate_loop (fuel + extra) (start ver) ≡ validate_loop fuel (start ver))
unfolding validate_loop
validate_loop_ends ver extra =
    let done =
      repeat_ends (λ (s : Side). not (is_last s.part)) advance weight
        (λ s go. advance-weight s (ground arith)) (start ver) (2 * length ver + 3) (omega arith) in
    (ground arith, repeat_more _ advance _ extra _ done)

-- The loop over two versions ends by its own test, within the fuel that `compare_strings` gives
-- it, and more fuel leaves both tokens as they are.
pub compare_loop_ends :
    (a b : List ℕ) (extra : ℕ)
    → let fuel = 2 * length a + 2 * length b + 6 in
      let ends = compare_loop fuel (start a, start b) in
      (agree ends ≡ false) × (compare_loop (fuel + extra) (start a, start b) ≡ ends)
unfolding compare_loop
compare_loop_ends a b extra =
    let done =
      repeat_ends agree advance_both (λ s. weight s.0) (λ s go. advance-weight s.0 (ground arith))
        (start a, start b) (2 * length a + 2 * length b + 6) (omega arith) in
    (done, repeat_more agree advance_both _ extra _ done)

-- The result with the roles of the two versions exchanged.
abbrev pub converse : ℕ → ℕ
converse m = if m == less then greater else if m == greater then less else m

ltb_ℤ_asymm : (a b : ℤ) → ltb_ℤ a b ≡ true → ltb_ℤ b a ≡ false
ltb_ℤ_asymm a b h = ground arith

verdict-swap : (a b : Side) → verdict b a ≡ converse (verdict a b)
unfolding verdict
verdict-swap a b = ground (arith, ltb_ℤ_asymm a.value b.value)

int_eq_symm : (a b : ℤ) → int_eq a b ≡ int_eq b a
int_eq_symm a b = ground arith

agree_symm : (a b : Side) → agree (b, a) ≡ agree (a, b)
agree_symm a b = ground (arith, int_eq_symm a.value b.value)

abbrev exchange : Side × Side → Side × Side
exchange (a, b) = (b, a)

compare_loop-exchange :
    (fuel : ℕ) (a b : Side) → compare_loop fuel (b, a) ≡ exchange (compare_loop fuel (a, b))
unfolding compare_loop repeat
compare_loop-exchange zero a b = refl
compare_loop-exchange (suc fuel) a b = elim (Bool-cases (agree (a, b))) [
  | inl e ↦ rw (agree_symm a b, e, repeat) (compare_loop-exchange fuel (advance a) (advance b))
  | inr e ↦ rw (agree_symm a b, e, repeat) refl
]

compare_strings-swap : (a b : List ℕ) → compare_strings b a ≡ converse (compare_strings a b)
unfolding compare_strings
compare_strings-swap a b =
    let fuel : 2 * length b + 2 * length a + 6 ≡ 2 * length a + 2 * length b + 6 = omega arith in
    rw (fuel, compare_loop-exchange (2 * length a + 2 * length b + 6) (start a) (start b))
      (verdict-swap _ _)

-- Comparing in the other order gives the converse result: less for greater, greater for less, and
-- the same mask for equal versions and for a missing version.
pub compare_blob-swap : (a b : Option (List ℕ)) → compare_blob b a ≡ converse (compare_blob a b)
unfolding compare_blob
compare_blob-swap none none = refl
compare_blob-swap none (some b) = refl
compare_blob-swap (some a) none = refl
compare_blob-swap (some a) (some b) = compare_strings-swap a b

verdict_self : (a : Side) → verdict a a ≡ equal
unfolding verdict
verdict_self a = ground (arith, ltb_ℤ_asymm a.value a.value)

compare_loop_self :
    (fuel : ℕ) (s : Side)
    → verdict (compare_loop fuel (s, s)).0 (compare_loop fuel (s, s)).1 ≡ equal
unfolding compare_loop repeat
compare_loop_self zero s = verdict_self s
compare_loop_self (suc fuel) s = elim (Bool-cases (agree (s, s))) [
  | inl e ↦ rw (e, repeat) (compare_loop_self fuel (advance s))
  | inr e ↦ rw (e, repeat) (verdict_self s)
]

-- Every version, valid or not, is equal to itself, and so is a missing one.
pub compare_blob_self : (a : Option (List ℕ)) → compare_blob a a ≡ equal
unfolding compare_blob compare_strings
compare_blob_self none = refl
compare_blob_self (some a) = compare_loop_self _ (start a)

verdict-one :
    (a b : Side) → (verdict a b ≡ less) ⊎ ((verdict a b ≡ equal) ⊎ (verdict a b ≡ greater))
unfolding verdict
verdict-one a b = ground arith

-- The result for two versions is one of less, equal and greater, also for versions that are not
-- valid.
pub compare_blob-one :
    (a b : List ℕ)
    → (compare_blob (some a) (some b) ≡ less)
      ⊎ ((compare_blob (some a) (some b) ≡ equal) ⊎ (compare_blob (some a) (some b) ≡ greater))
unfolding compare_blob compare_strings
compare_blob-one a b = verdict-one _ _

-- `apk_version_result_mask` reads back every operator that `apk_version_op_string` writes: from
-- the mask of `<`, `<=`, `=`, `>=` or `>` it returns that mask, and `?`, which stands for any
-- other mask, reads as no condition that a version can meet.
pub result_mask-op_string :
    (m : ℕ) → result_mask (op_string m) ≡ (if not (m == 0) && (ltb m 6) then m else 0)
unfolding result_mask op_string
result_mask-op_string m = ground arith
