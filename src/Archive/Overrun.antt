-- ===== src/Archive/Overrun.antt =====
-- apk-tools/src/archive.c: a name that fills its field has no end there.
use mathlib.Core.Path.{subst}
use arianna_method_anchor_pr.Prelude.{
  ℕ, zero, suc, ◌+◌, ◌-◌, ◌/◌, ◌%◌, ◌≤◌, ◌<◌, ◌≡◌, refl, sym, List, [], ◌∷◌, ◌++◌, length, take,
  drop, arith, ◌==◌, if_either,
}
use arianna_method_anchor_pr.Archive.{
  TarHeader, header_of, bytes_of, laid_out, fields_of, text_of, text_at, zero_loop, octal_loop,
  put_octal,
}
use arianna_method_anchor_pr.Archive.Layout.{owner_at}
use arianna_method_anchor_pr.Archive.Write.{TarEntry, put_text, or_empty, unsummed, header_for}
use arianna_method_anchor_pr.Archive.Back.{IsText, length-put_text, header_for-IsLaidOut}

-- The bytes begin with one that is not NUL.
abbrev StartsText : List ℕ → Type 0
StartsText [] = ⊥
StartsText (c ∷ s) = 0 < c

zero_loop-StartsText : (n : ℕ) (s : List ℕ) → StartsText s → StartsText (zero_loop n s)
zero_loop-StartsText zero s h = h
zero_loop-StartsText (suc n) s h = zero_loop-StartsText n (b'0' ∷ s) (omega arith)

octal_loop-StartsText :
    (n value : ℕ) (s : List ℕ) → StartsText s → StartsText (octal_loop n value s)
unfolding octal_loop
octal_loop-StartsText zero value s h = h
octal_loop-StartsText (suc n) value s h =
    if_either StartsText (value == 0) (zero_loop (suc n) s)
      (octal_loop n (value / 8) ((b'0' + value % 8) ∷ s)) (zero_loop-StartsText (suc n) s h)
      (octal_loop-StartsText n (value / 8) ((b'0' + value % 8) ∷ s) (omega arith))

StartsText-append : (s r : List ℕ) → StartsText s → StartsText (s ++ r)
StartsText-append [] r h = absurd h
StartsText-append (c ∷ s) r h = h

put_octal-StartsText : (value : ℕ) → StartsText (put_octal 8 value)
unfolding put_octal octal_loop
put_octal-StartsText value =
    let d = b'0' + value % 8 in
    if_either StartsText (value == 0) (zero_loop 7 (0 ∷ [])) (octal_loop 6 (value / 8) (d ∷ 0 ∷ []))
      (omega arith) (octal_loop-StartsText 6 (value / 8) (d ∷ 0 ∷ []) (omega arith))

text_of_long : (s r : List ℕ) → IsText s → StartsText r → length s < length (text_of (s ++ r))
text_of_long [] [] t h = absurd h
text_of_long [] (c ∷ r) t h = ground arith
text_of_long (c ∷ s) r (p, t) h = ground (arith, text_of_long s r t h)

take-IsText : (n : ℕ) (s : List ℕ) → IsText s → IsText (take n s)
take-IsText zero s t = tt
take-IsText (suc n) [] t = tt
take-IsText (suc n) (c ∷ s) (p, t) = (p, take-IsText n s t)

-- A field that its text fills has no NUL.
full_text : (n : ℕ) (s : List ℕ) → n ≤ length s → put_text n s ≡ take n s ++ []
unfolding put_text
full_text n s h = let z : n - length s ≡ 0 = omega arith in rw z refl

append_nil-IsText : (s : List ℕ) → IsText s → IsText (s ++ [])
append_nil-IsText [] t = tt
append_nil-IsText (c ∷ s) (p, t) = (p, append_nil-IsText s t)

at_least : {k : ℕ} (l : ℕ) → k ≡ 100 → k < l → 100 < l
at_least l e h = omega arith

text_overrun :
    (h : TarHeader)
    → IsText h.name
    → length h.name ≡ 100
    → StartsText h.mode
    → 100 < length (text_at h 0)
unfolding text_at
text_overrun h t n m =
    let r = laid_out (drop 1 (fields_of h)) in
    at_least (length (text_of (h.name ++ r))) n
      (text_of_long h.name r t (StartsText-append h.mode (laid_out (drop 2 (fields_of h))) m))

full-IsText : (n : ℕ) (s : List ℕ) → n ≤ length s → IsText s → IsText (put_text n s)
full-IsText n s h t =
    subst IsText (sym (full_text n s h)) (append_nil-IsText (take n s) (take-IsText n s t))

name_overrun :
    (now : ℕ) (ae : TarEntry)
    → IsText (or_empty ae.name)
    → 100 ≤ length (or_empty ae.name)
    → 100 < length (text_at (header_for now ae) 0)
unfolding header_for unsummed
name_overrun now ae t h =
    text_overrun (header_for now ae) (full-IsText 100 (or_empty ae.name) h t)
      (length-put_text 100 (or_empty ae.name)) (put_octal-StartsText (ae.perms % 4096))

-- `apk_tar_write_entry` cuts a name of 100 bytes or more to its field without a NUL, and
-- `apk_tar_parse` then reads on into the field behind it: the name that it finds is longer than the
-- field.
pub name_reads_on :
    (now : ℕ) (ae : TarEntry)
    → IsText (or_empty ae.name)
    → 100 ≤ length (or_empty ae.name)
    → 100 < length (text_at (header_of (bytes_of (header_for now ae))) 0)
name_reads_on now ae t h =
    let k = header_for now ae in
    let same : header_of (bytes_of k) ≡ k = (owner_at k (header_for-IsLaidOut now ae)).2 in
    subst (λ (x : TarHeader). 100 < length (text_at x 0)) (sym same) (name_overrun now ae t h)
