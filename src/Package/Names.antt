-- ===== src/Package/Names.antt =====
-- apk-tools/src/package.c: names of package files and of scripts.
use native.Mathlib.Nat.{suc-add}
use arianna_method_anchor_pr.Prelude.{
  ℕ, zero, suc, ◌+◌, ◌-◌, ◌≡◌, refl, Bool, true, false, not, ◌&&◌, Option, none, some, List, [],
  ◌∷◌, ◌++◌, ◌==◌, leb, if◌then◌else◌, length, get_or, take, drop, bytes, isdigit, ℤ, pos, negsuc,
  int_eq, arith, ◌<◌, ap, sym, ◌∙◌, Option-cases, inl, inr,
}
use arianna_method_anchor_pr.Blob.Slices.{c_string, compare}
use arianna_method_anchor_pr.Blob.Cursor.{Cursor, push_blob}
use arianna_method_anchor_pr.Blob.Hex.{push_hexdump}

-- The loop down from `i = n - 1`; `dash` counts the dashes that no digit follows.
unfoldable pub name_loop : ℕ → List ℕ → ℕ → Option ℕ
unfolding isdigit
name_loop zero s dash = none
name_loop (suc i) s dash =
    let skip = name_loop i s dash in
    let next = name_loop i s (suc dash) in
    if not (get_or s i 0 == b'-')
    then skip
    else if isdigit (get_or s (i + 1) 0)
    then some i
    else if leb 2 (suc dash)
    then none
    else next

-- What `apk_pkg_parse_name` makes of the index.
abbrev pub cut_name : List ℕ → ℕ → List ℕ × List ℕ
cut_name s i = (take i s, drop (i + 1) s)

abbrev pub cut_at : List ℕ → Option ℕ → Option (List ℕ × List ℕ)
cut_at s none = none
cut_at s (some i) = some (cut_name s i)

-- `apk_pkg_parse_name`, with both places for the results given; `none` is -1.
unfoldable pub parse_name : Option (List ℕ) → Option (List ℕ × List ℕ)
unfolding name_loop
parse_name none = none
parse_name (some s) = cut_at s (name_loop (length s - 1) s 0)

-- A dash at `i`, and a digit behind it.
abbrev pub dash_digit : List ℕ → ℕ → Bool
dash_digit s i = (get_or s i 0 == b'-') && isdigit (get_or s (i + 1) 0)

name_loop_last :
    (n : ℕ) (s : List ℕ) (dash i : ℕ)
    → name_loop n s dash ≡ some i
    → (i < n) × (dash_digit s i ≡ true)
unfolding name_loop
name_loop_last zero s dash i h = absurd cc
name_loop_last (suc n) s dash i h =
    ground (arith, name_loop_last n s dash i, name_loop_last n s (suc dash) i)

name_loop_none_later :
    (n : ℕ) (s : List ℕ) (dash i j : ℕ)
    → name_loop n s dash ≡ some i
    → i < j
    → j < n
    → dash_digit s j ≡ false
unfolding name_loop
name_loop_none_later zero s dash i j h a b = absurd cc
name_loop_none_later (suc n) s dash i j h a b =
    ground (arith, name_loop_none_later n s dash i j, name_loop_none_later n s (suc dash) i j)

cut_joined :
    (s : List ℕ) (i : ℕ)
    → i < length s
    → (take i s ++ get_or s i 0 ∷ drop (i + 1) s ≡ s)
      × (length (take i s) ≡ i)
      × (get_or (drop (i + 1) s) 0 0 ≡ get_or s (i + 1) 0)
cut_joined [] i h = absurd (omega arith)
cut_joined (c ∷ []) zero h = (refl, refl, refl)
cut_joined (c ∷ d ∷ s) zero h = (refl, refl, refl)
cut_joined (c ∷ s) (suc i) h =
    let (p, q, r) = cut_joined s i (omega arith) in rw suc-add (ap (λ t. c ∷ t) p, ap suc q, r)

-- The text, and where it is cut.
cut_of :
    (s n v : List ℕ)
    → parse_name (some s) ≡ some (n, v)
    → (i : ℕ) × (name_loop (length s - 1) s 0 ≡ some i) × (take i s ≡ n) × (drop (i + 1) s ≡ v)
unfolding parse_name
cut_of s n v h = elim (Option-cases (name_loop (length s - 1) s 0)) [
  | inl e ↦ let q : none ≡ some (n, v) = rw e at h in absurd cc
  | inr (i, e) ↦ let q : some (cut_name s i) ≡ some (n, v) = rw e at h in (i, e, cc, cc)
]

-- Whenever `apk_pkg_parse_name` succeeds, the name and the version with a dash between are the text
-- it was given, and the version begins with a digit.
pub parse_name_sound :
    (s n v : List ℕ)
    → parse_name (some s) ≡ some (n, v)
    → (n ++ b'-' ∷ v ≡ s) × (isdigit (get_or v 0 0) ≡ true)
parse_name_sound s n v h =
    let (i, e, p, q) = cut_of s n v h in
    let (less, at) = name_loop_last (length s - 1) s 0 i e in
    let (joined, _, next) = cut_joined s i (omega arith) in
    let dash : get_or s i 0 ≡ b'-' = ground arith in
    let digit : isdigit (get_or s (i + 1) 0) ≡ true = ground arith in
    (rw (p, q, dash) at joined, rw (← q, next) digit)

-- Where `apk_pkg_parse_name` succeeds, at no place of the text behind the end of the name and its
-- dash a dash stands before a digit.
pub parse_name_last :
    (s n v : List ℕ) (j : ℕ)
    → parse_name (some s) ≡ some (n, v)
    → length n < j
    → j + 1 < length s
    → dash_digit s j ≡ false
parse_name_last s n v j h a b =
    let (i, e, p, q) = cut_of s n v h in
    let (less, at) = name_loop_last (length s - 1) s 0 i e in
    let (_, size, _) = cut_joined s i (omega arith) in
    let size' : length n ≡ i = ap length (sym p) ∙ size in
    name_loop_none_later (length s - 1) s 0 i j e (omega arith) (omega arith)

-- The index that `apk_script_types` gives a text, counted from `i`; -1 is APK_SCRIPT_INVALID.
find_type : ℕ → List (List ℕ) → List ℕ → ℤ
unfolding compare
find_type i [] name = negsuc 0
find_type i (t ∷ ts) name =
    let rest = find_type (suc i) ts name in if int_eq (compare t name) (pos 0) then pos i else rest

abbrev pub script_types : List (List ℕ)
script_types =
    bytes "pre-install"
    ∷ bytes "post-install"
    ∷ bytes "pre-deinstall"
    ∷ bytes "post-deinstall"
    ∷ bytes "pre-upgrade"
    ∷ bytes "post-upgrade"
    ∷ bytes "trigger"
    ∷ []

unfoldable pub script_type : List ℕ → ℤ
unfolding find_type
script_type name = find_type 0 script_types name

-- The buffer after `apk_pkg_format_plain`, whose `to` is a copy; a NUL byte ends the text.
unfoldable pub format_plain : List ℕ → List ℕ → Option Cursor → Option Cursor
unfolding push_blob c_string
format_plain name version to =
    let to₁ = push_blob (push_blob to (c_string name)) (bytes "-") in
    let to₂ = push_blob (push_blob to₁ (c_string version)) (bytes ".apk") in push_blob to₂ (0 ∷ [])

-- `apk_pkg_format_cache`, with APK_CACHE_CSUM_BYTES bytes of the checksum.
unfoldable pub format_cache : List ℕ → List ℕ → List ℕ → Option Cursor → Option Cursor
unfolding push_blob c_string push_hexdump
format_cache name version csum to =
    let to₁ = push_blob (push_blob to (c_string name)) (bytes "-") in
    let to₂ = push_blob (push_blob to₁ (c_string version)) (bytes ".") in
    let to₃ = push_blob (push_hexdump to₂ (take 4 csum)) (bytes ".apk") in push_blob to₃ (0 ∷ [])
