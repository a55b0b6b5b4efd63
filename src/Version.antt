-- ===== src/Version.antt =====
-- apk-tools/src/version.c: the tokens of a version string.
pub mod Compare
pub mod Progress
pub mod Order
use arianna_method_anchor_pr.Prelude.{
  ℕ, zero, suc, ◌+◌, ◌-◌, ◌*◌, ◌%◌, ◌^◌, ◌≡◌, refl, Bool, true, false, not, ◌&&◌, ◌||◌, Option,
  none, some, List, [], ◌∷◌, ◌++◌, arith, ltb, ◌==◌, if◌then◌else◌, length, ℤ, pos, negsuc, isdigit,
  islower, signed8, signed32, negate, bytes, ltb_ℤ, is_negative,
}

-- `enum PARTS`
pub data Part : Type 0 where
  invalid digit_or_zero digit letter suffix suffix_no revision_no end : Part

-- The value of the enumerator, plus one.
abbrev pub rank : Part → ℕ
rank invalid = 0
rank digit_or_zero = 1
rank digit = 2
rank letter = 3
rank suffix = 4
rank suffix_no = 5
rank revision_no = 6
rank end = 7

infix 50 ◌is◌
abbrev pub ◌is◌ : Part → Part → Bool
a is b = rank a == rank b

revision : List ℕ → Part × List ℕ
revision [] = (invalid, [])
revision (c ∷ r) = if c == b'r' then (revision_no, r) else (invalid, c ∷ r)

-- The `switch` on the next byte, which is skipped.
separator : ℕ → List ℕ → Part × List ℕ
separator c r =
    if c == b'.'
    then (digit_or_zero, r)
    else if c == b'_'
    then (suffix, r)
    else if c == b'-'
    then revision r
    else (invalid, r)

-- The part that the next byte begins, and the bytes from it on.
next_part : Part → List ℕ → Part × List ℕ
unfolding revision separator isdigit islower
next_part t [] = (end, [])
next_part t (c ∷ r) =
    if c == 0
    then (end, c ∷ r)
    else if (t is digit || t is digit_or_zero) && islower c
    then (letter, c ∷ r)
    else if t is letter && isdigit c
    then (digit, c ∷ r)
    else if t is suffix && isdigit c
    then (suffix_no, c ∷ r)
    else separator c r

-- A part may not follow a later one, but for three exceptions.
in_order : Part → Part → Part
in_order n t =
    if ltb (rank n) (rank t)
      && not (
          (n is digit_or_zero && t is digit)
          || (n is suffix && t is suffix_no)
          || (n is digit && t is letter))
    then invalid
    else n

next_token : Part → List ℕ → Part × List ℕ
unfolding next_part in_order
next_token t s = let (n, r) = next_part t s in (in_order n t, r)

-- What `get_token` returns, with the part and the bytes that it leaves in `*type` and `*blob`.
pub record Side : Type 0 where
  pub value : ℤ
  pub part : Part
  pub rest : List ℕ

-- `while (i < blob->len && blob->ptr[i] == '0') i++`: how many, and the bytes after them.
zeros : ℕ → List ℕ → ℕ × List ℕ
zeros i [] = (i, [])
zeros i (c ∷ r) = if c == b'0' then zeros (suc i) r else (i, c ∷ r)

-- The decimal number at the front, in a 32-bit `int`.
number : ℕ → List ℕ → ℕ × List ℕ
unfolding isdigit
number v [] = (v, [])
number v (c ∷ r) = if isdigit c then number ((v * 10 + (c - b'0')) % 2 ^ 32) r else (v, c ∷ r)

-- The bytes behind a prefix.
strip : List ℕ → List ℕ → Option (List ℕ)
strip [] s = some s
strip (p ∷ ps) [] = none
strip (p ∷ ps) (c ∷ s) = if p == c then strip ps s else none

abbrev pre_suffixes : List (List ℕ)
pre_suffixes = bytes "alpha" ∷ bytes "beta" ∷ bytes "pre" ∷ bytes "rc" ∷ []

abbrev post_suffixes : List (List ℕ)
post_suffixes = bytes "cvs" ∷ bytes "svn" ∷ bytes "git" ∷ bytes "hg" ∷ bytes "p" ∷ []

-- The index of the first entry that `s` begins with, counted from `v`, and the bytes behind it.
find_suffix : ℕ → List (List ℕ) → List ℕ → Option (ℕ × List ℕ)
unfolding strip
find_suffix v [] s = none
find_suffix v (p ∷ ps) s = elim (strip p s) [
  | some r ↦ some (v, r)
  | none ↦ find_suffix (suc v) ps s
]

-- The lines behind the `switch`: the type of the next token.
finish : ℤ → Part → List ℕ → Side
unfolding next_token
finish v t [] = record { value = v; part = end; rest = [] }
finish v t (c ∷ s) = let (n, r) = next_token t (c ∷ s) in record { value = v; part = n; rest = r }

-- `nt = TOKEN_DIGIT`
finish_zeros : ℕ × List ℕ → Side
finish_zeros (i, []) = record { value = negate i; part = end; rest = [] }
finish_zeros (i, c ∷ s) = record { value = negate i; part = digit; rest = c ∷ s }

finish_number : Part → ℕ × List ℕ → Side
unfolding finish
finish_number t (v, s) = finish (signed32 v) t s

stop : List ℕ → Side
stop s = record { value = negsuc 0; part = invalid; rest = s }

-- The loops over the two tables of suffixes: a match ends the `switch`, and none in either table
-- is an invalid suffix.
post_token : List ℕ → Option (ℕ × List ℕ) → Side
unfolding finish stop
post_token s none = stop s
post_token s (some (v, r)) = finish (pos v) suffix r

pre_token : List ℕ → Option (ℕ × List ℕ) → Side
unfolding finish post_token
pre_token s none = post_token s (find_suffix 0 post_suffixes s)
pre_token s (some (v, r)) = finish (negsuc (3 - v)) suffix r

suffix_token : List ℕ → Side
unfolding pre_token
suffix_token s = pre_token s (find_suffix 0 pre_suffixes s)

unfoldable pub get_token : Part → List ℕ → Side
unfolding zeros number find_suffix finish finish_zeros finish_number suffix_token
get_token t [] = record { value = pos 0; part = end; rest = [] }
get_token digit_or_zero (c ∷ s) =
    if c == b'0'
    then finish_zeros (zeros 0 (c ∷ s))
    else finish_number digit_or_zero (number 0 (c ∷ s))
get_token digit s = finish_number digit (number 0 s)
get_token suffix_no s = finish_number suffix_no (number 0 s)
get_token revision_no s = finish_number revision_no (number 0 s)
get_token letter (c ∷ s) = finish (signed8 c) letter s
get_token suffix s = suffix_token s
get_token t s = stop s
