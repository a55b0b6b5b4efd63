-- ===== src/Version/Progress.antt =====
-- Each `get_token` that does not end the version moves on, so both loops of version.c end by
-- their own test.
use arianna_method_anchor_pr.Prelude.{
  ℕ, suc, ◌+◌, ◌-◌, ◌%◌, ◌^◌, ◌*◌, ◌≤◌, ◌<◌, ◌≡◌, Bool, true, false, Option, none, some, List, [],
  ◌∷◌, arith, length, ℤ, pos, negsuc, signed8, refl, Bool-cases, ==_iff, signed32, Option-cases,
  inl, inr, ◌==◌,
}
use arianna_method_anchor_pr.Version.{
  Part, invalid, digit_or_zero, digit, letter, suffix, suffix_no, revision_no, end, Side, next_part,
  next_token, zeros, number, strip, pre_suffixes, post_suffixes, find_suffix, finish, finish_zeros,
  finish_number, post_token, pre_token, suffix_token, get_token, in_order, separator, revision,
}
use arianna_method_anchor_pr.Version.Compare.{is_last, advance}

-- At a letter a call may consume less than elsewhere, so a letter weighs less.
abbrev part_weight : Part → ℕ → ℕ
part_weight invalid n = 0
part_weight end n = 0
part_weight letter n = n + 1
part_weight digit n = n + 2
part_weight digit_or_zero n = n + 2
part_weight suffix n = n + 2
part_weight suffix_no n = n + 2
part_weight revision_no n = n + 2

abbrev pub weight : Side → ℕ
weight s = part_weight s.part (2 * length s.rest)

part_weight-le : (t : Part) (n : ℕ) → part_weight t n ≤ n + 2
part_weight-le t n = ground arith

length-zeros : (i : ℕ) (s : List ℕ) → length (zeros i s).1 ≤ length s
unfolding zeros
length-zeros i [] = omega arith
length-zeros i (c ∷ s) = ground (arith, length-zeros (suc i) s)

length-number : (v : ℕ) (s : List ℕ) → length (number v s).1 ≤ length s
unfolding number
length-number v [] = omega arith
length-number v (c ∷ s) = ground (arith, length-number ((v * 10 + (c - b'0')) % 2 ^ 32) s)

length-strip : (p s r : List ℕ) → strip p s ≡ some r → length p + length r ≡ length s
unfolding strip
length-strip [] s r h = ground arith
length-strip (p ∷ ps) [] r h = ground arith
length-strip (p ∷ ps) (c ∷ s) r h = ground (arith, length-strip ps s r)

length-separator : (c : ℕ) (s : List ℕ) → length (separator c s).1 ≤ length s
unfolding separator revision
length-separator c [] = ground arith
length-separator c (d ∷ s) = ground arith

length-next_part : (t : Part) (s : List ℕ) → length (next_part t s).1 ≤ length s
unfolding next_part
length-next_part t [] = omega arith
length-next_part t (c ∷ s) = ground (arith, length-separator c s)

next_token-weight :
    (t : Part) (s : List ℕ)
    → part_weight (next_token t s).0 (2 * length (next_token t s).1) ≤ 2 * length s + 2
unfolding next_token
next_token-weight t s = omega (
  arith,
  length-next_part t s,
  part_weight-le (in_order (next_part t s).0 t) (2 * length (next_part t s).1),
)

-- Only a letter may begin without its byte being skipped.
abbrev steady : Part → Bool
steady digit_or_zero = true
steady digit = true
steady suffix_no = true
steady revision_no = true
steady _ = false

separator-weight :
    (t : Part) (c : ℕ) (s : List ℕ)
    → part_weight (in_order (separator c s).0 t) (2 * length (separator c s).1) ≤ 2 * length s + 2
separator-weight t c s = omega (
  arith,
  length-separator c s,
  part_weight-le (in_order (separator c s).0 t) (2 * length (separator c s).1),
)

next_token-steady :
    (t : Part) (s : List ℕ)
    → steady t ≡ true
    → part_weight (next_token t s).0 (2 * length (next_token t s).1) ≤ 2 * length s + 1
unfolding next_token separator-weight
next_token-steady digit_or_zero (c ∷ s) h = ground (arith, separator-weight digit_or_zero c s)
next_token-steady digit (c ∷ s) h = ground (arith, separator-weight digit c s)
next_token-steady suffix_no (c ∷ s) h = ground (arith, separator-weight suffix_no c s)
next_token-steady revision_no (c ∷ s) h = ground (arith, separator-weight revision_no c s)
next_token-steady t [] h = ground arith
next_token-steady t s h = ground arith

finish-weight : (v : ℤ) (t : Part) (s : List ℕ) → weight (finish v t s) ≤ 2 * length s + 2
unfolding finish
finish-weight v t [] = omega arith
finish-weight v t (c ∷ s) = next_token-weight t (c ∷ s)

finish-steady :
    (v : ℤ) (t : Part) (s : List ℕ) → steady t ≡ true → weight (finish v t s) ≤ 2 * length s + 1
unfolding finish
finish-steady v t [] h = omega arith
finish-steady v t (c ∷ s) h = next_token-steady t (c ∷ s) h

zeros_first : (s : List ℕ) → length (zeros 0 (b'0' ∷ s)).1 ≤ length s
unfolding zeros
zeros_first s = length-zeros 1 s

finish_zeros-weight : (z : ℕ × List ℕ) → weight (finish_zeros z) ≤ 2 * length z.1 + 2
unfolding finish_zeros
finish_zeros-weight (i, []) = omega arith
finish_zeros-weight (i, c ∷ s) = omega arith

finish_number-weight :
    (t : Part) (s : List ℕ)
    → steady t ≡ true
    → weight (finish_number t (number 0 s)) ≤ 2 * length s + 1
unfolding finish_number
finish_number-weight t s h =
    omega (arith, length-number 0 s, finish-steady (signed32 (number 0 s).0) t (number 0 s).1 h)

-- Every suffix has a byte, so a suffix that is found is shorter than its text.
abbrev NonEmpty : List (List ℕ) → Type 0
NonEmpty [] = Unit
NonEmpty (p ∷ ps) = (1 ≤ length p) × NonEmpty ps

length-find_suffix :
    (v : ℕ) (ps : List (List ℕ)) (s : List ℕ) (w : ℕ) (r : List ℕ)
    → NonEmpty ps
    → find_suffix v ps s ≡ some (w, r)
    → length r < length s
unfolding find_suffix
length-find_suffix v [] s w r n h = ground arith
length-find_suffix v (p ∷ ps) s w r n h = elim (Option-cases (strip p s)) [
  | inl e ↦ length-find_suffix (suc v) ps s w r n.1 (rw (e, find_suffix) at h)
  | inr (t, e) ↦ ground (arith, length-strip p s t)
]

abbrev Shorter : ℕ → Option (ℕ × List ℕ) → Type 0
Shorter n o = (v : ℕ) (r : List ℕ) → o ≡ some (v, r) → length r < n

post_token-weight :
    (s : List ℕ) (o : Option (ℕ × List ℕ))
    → Shorter (length s) o
    → weight (post_token s o) < 2 * length s + 2
unfolding post_token
post_token-weight s none h = omega arith
post_token-weight s (some (v, r)) h = omega (arith, finish-weight (pos v) suffix r, h v r refl)

pre_token-weight :
    (s : List ℕ) (o : Option (ℕ × List ℕ))
    → Shorter (length s) o
    → weight (pre_token s o) < 2 * length s + 2
unfolding pre_token
pre_token-weight s none h =
    post_token-weight s _ (λ v r. length-find_suffix 0 post_suffixes s v r (omega arith))
pre_token-weight s (some (v, r)) h =
    omega (arith, finish-weight (negsuc (3 - v)) suffix r, h v r refl)

suffix_token-weight : (s : List ℕ) → weight (suffix_token s) < 2 * length s + 2
unfolding suffix_token
suffix_token-weight s =
    pre_token-weight s _ (λ v r. length-find_suffix 0 pre_suffixes s v r (omega arith))

dot_token-weight :
    (c : ℕ) (s : List ℕ)
    → weight (get_token digit_or_zero (c ∷ s)) < part_weight digit_or_zero (2 * length (c ∷ s))
unfolding get_token
dot_token-weight c s = elim (Bool-cases (c == b'0')) [
  | inl e ↦ ground (arith, ==_iff c b'0', zeros_first s, finish_zeros-weight (zeros 0 (c ∷ s)))
  | inr e ↦ rw e (omega (arith, finish_number-weight digit_or_zero (c ∷ s) refl))
]

get_token-weight :
    (t : Part) (s : List ℕ)
    → is_last t ≡ false
    → weight (get_token t s) < part_weight t (2 * length s)
get_token-weight digit_or_zero (c ∷ s) h = dot_token-weight c s
get_token-weight digit (c ∷ s) h =
    unfold get_token in omega (arith, finish_number-weight digit (c ∷ s) refl)
get_token-weight suffix_no (c ∷ s) h =
    unfold get_token in omega (arith, finish_number-weight suffix_no (c ∷ s) refl)
get_token-weight revision_no (c ∷ s) h =
    unfold get_token in omega (arith, finish_number-weight revision_no (c ∷ s) refl)
get_token-weight letter (c ∷ s) h =
    unfold get_token in omega (arith, finish-weight (signed8 c) letter s)
get_token-weight suffix (c ∷ s) h = unfold get_token in suffix_token-weight (c ∷ s)
get_token-weight t [] h = unfold get_token in ground arith
get_token-weight t s h = ground arith

-- A token that is not the last one leaves less to read.
pub advance-weight : (s : Side) → is_last s.part ≡ false → weight (advance s) < weight s
advance-weight s h = get_token-weight s.part s.rest h
