-- ===== src/Version/Compare.antt =====
-- apk-tools/src/version.c: validation and comparison of versions, and the operators on results.
use Prim.Native.Nat.{bit_or}
use arianna_method_anchor_pr.Prelude.{
  ℕ, ◌+◌, ◌*◌, Bool, not, ◌&&◌, ◌||◌, Option, none, some, List, [], ◌∷◌, ltb, ◌==◌, if◌then◌else◌,
  length, pos, ltb_ℤ, is_negative, bytes, repeat, int_eq,
}
use arianna_method_anchor_pr.Version.{
  Part, invalid, digit, suffix, end, rank, ◌is◌, Side, get_token,
}

abbrev pub equal : ℕ
equal = 1

abbrev pub less : ℕ
less = 2

abbrev pub greater : ℕ
greater = 4

unfoldable pub op_string : ℕ → List ℕ
op_string mask =
    if mask == less
    then bytes "<"
    else if mask == bit_or less equal
    then bytes "<="
    else if mask == equal
    then bytes "="
    else if mask == bit_or greater equal
    then bytes ">="
    else if mask == greater
    then bytes ">"
    else bytes "?"

-- `if (*str == '=') r |= APK_VERSION_EQUAL`
or_equal : ℕ → List ℕ → ℕ
or_equal r [] = r
or_equal r (c ∷ s) = if c == b'=' then bit_or r equal else r

unfoldable pub result_mask : List ℕ → ℕ
unfolding or_equal
result_mask [] = 0
result_mask (c ∷ s) =
    if c == b'<'
    then or_equal less s
    else if c == b'>'
    then or_equal greater s
    else or_equal 0 (c ∷ s)

abbrev pub start : List ℕ → Side
start s = record { value = pos 0; part = digit; rest = s }

abbrev pub advance : Side → Side
advance s = get_token s.part s.rest

abbrev pub is_last : Part → Bool
is_last t = t is end || t is invalid

-- The loop of `apk_version_validate`.
unfoldable pub validate_loop : ℕ → Side → Side
validate_loop fuel = repeat fuel (λ s. not (is_last s.part)) advance

unfoldable pub validate : List ℕ → Bool
unfolding validate_loop
validate ver = let s = validate_loop (2 * length ver + 3) (start ver) in s.part is end

-- The condition of the loop over both versions.
abbrev pub agree : Side × Side → Bool
agree (a, b) = a.part is b.part && not (is_last a.part) && int_eq a.value b.value

abbrev pub advance_both : Side × Side → Side × Side
advance_both (a, b) = (advance a, advance b)

unfoldable pub compare_loop : ℕ → Side × Side → Side × Side
compare_loop fuel = repeat fuel agree advance_both

-- What follows the loop.
unfoldable pub verdict : Side → Side → ℕ
verdict a b =
    if ltb_ℤ a.value b.value
    then less
    else if ltb_ℤ b.value a.value
    then greater
    else if a.part is b.part
    then equal
    else if a.part is suffix && is_negative (advance a).value
    then less
    else if b.part is suffix && is_negative (advance b).value
    then greater
    else if ltb (rank b.part) (rank a.part)
    then less
    else if ltb (rank a.part) (rank b.part)
    then greater
    else equal

unfoldable pub compare_strings : List ℕ → List ℕ → ℕ
compare_strings a b =
    let (x, y) = compare_loop (2 * length a + 2 * length b + 6) (start a, start b) in verdict x y

-- `none` is a blob whose pointer is NULL.
unfoldable pub compare_blob : Option (List ℕ) → Option (List ℕ) → ℕ
compare_blob none none = equal
compare_blob none (some b) = bit_or equal (bit_or greater less)
compare_blob (some a) none = bit_or equal (bit_or greater less)
compare_blob (some a) (some b) = compare_strings a b
