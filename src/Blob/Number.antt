-- ===== src/Blob/Number.antt =====
-- apk-tools/src/blob.c: unsigned numbers in a radix, written and read, and expected characters.
pub mod Laws
use arianna_method_anchor_pr.Prelude.{
  ℕ, zero, suc, ◌+◌, ◌-◌, ◌*◌, ◌/◌, ◌%◌, ◌^◌, Bool, ◌&&◌, ◌||◌, Option, none, some, List, [], ◌∷◌,
  ltb, leb, ◌==◌, if◌then◌else◌, bytes,
}
use arianna_method_anchor_pr.Blob.Cursor.{Cursor, push_blob}
use arianna_method_anchor_pr.Blob.Hex.{xd, dx}

-- The loop that fills `buf` from its end: the digits of `value` before those that stand there. A
-- 32-bit value has at most 32 digits, and the buffer has room for 64.
pub digits_loop : ℕ → ℕ → ℕ → List ℕ → List ℕ
digits_loop zero value radix buf = buf
digits_loop (suc fuel) value radix buf =
    let more = digits_loop fuel (value / radix) radix (xd (value % radix) ∷ buf) in
    if value == 0 then buf else more

unfoldable pub uint_text : ℕ → ℕ → List ℕ
uint_text value radix = if value == 0 then bytes "0" else digits_loop 64 value radix []

unfoldable pub push_uint : Option Cursor → ℕ → ℕ → Option Cursor
unfolding uint_text push_blob
push_uint to value radix = push_blob to (uint_text value radix)

unfoldable pub pull_char : Option (List ℕ) → ℕ → Option (List ℕ)
pull_char none expected = none
pull_char (some []) expected = none
pull_char (some (c ∷ s)) expected = if c == expected then some s else none

-- `ch < 0 || ch >= radix` ends the number.
abbrev pub digit_of : ℕ → Option ℕ → Option ℕ
digit_of radix none = none
digit_of radix (some v) = if leb radix v then none else some v

-- The loop of `apk_blob_pull_uint` in an `unsigned int`: the value, and the bytes behind it.
pub uint_loop : ℕ → ℕ → List ℕ → ℕ × List ℕ
uint_loop radix val [] = (val, [])
uint_loop radix val (c ∷ s) = elim (if c == 0 then none else digit_of radix (dx c)) [
  | none ↦ (val, c ∷ s)
  | some v ↦ uint_loop radix ((val * radix % 2 ^ 32 + v) % 2 ^ 32) s
]

-- The blob is not NULL: a NULL blob has length 0, and reads as 0 like an empty one.
unfoldable pub pull_uint : List ℕ → ℕ → ℕ × List ℕ
unfolding uint_loop dx
pull_uint s radix = uint_loop radix 0 s
