-- ===== src/Blob/Cursor.antt =====
-- apk-tools/src/blob.c: `apk_blob_push_blob` and `apk_blob_pushed` on an output buffer.
use mathlib.Core.List.{append_assoc}
use native.Mathlib.Nat.{suc-add}
use arianna_method_anchor_pr.Prelude.{
  ℕ, zero, suc, ◌+◌, ◌-◌, ◌≤◌, ◌≡◌, ap, refl, Option, none, some, List, [], ◌∷◌, ◌++◌, arith, ltb,
  ◌==◌, if◌then◌else◌, length, leb, length-take, take, length-append, Bool-cases, inl, inr,
}

-- `memcpy(mem + off, s, length s)`. What would fall behind the memory is lost; the theorems show
-- that nothing does.
unfoldable pub write : List ℕ → ℕ → List ℕ → List ℕ
write m zero [] = m
write [] zero (c ∷ s) = []
write (x ∷ m) zero (c ∷ s) = c ∷ write m zero s
write [] (suc i) s = []
write (x ∷ m) (suc i) s = x ∷ write m i s

-- A blob that is being filled: the memory of its buffer, `ptr` as an offset in it, and `len`.
pub record Cursor : Type 0 where
  pub mem : List ℕ
  pub off : ℕ
  pub len : ℕ

abbrev pub buffer : List ℕ → Option Cursor
buffer m = some (record { mem = m; off = 0; len = length m })

-- The end of each writer: NULL if `n` bytes are too many, else the memory and the cursor behind them.
unfoldable pub commit : Cursor → ℕ → List ℕ → Option Cursor
commit c n m =
    if ltb c.len n then none else some (record { mem = m; off = c.off + n; len = c.len - n })

unfoldable pub push_blob : Option Cursor → List ℕ → Option Cursor
unfolding commit write
push_blob none s = none
push_blob (some c) s = commit c (length s) (write c.mem c.off s)

-- `apk_blob_pushed(buffer, left)`, where `left` points into the buffer of `size` bytes.
unfoldable pub pushed : ℕ → Option Cursor → Option (List ℕ)
pushed size none = none
pushed size (some c) = if size == c.off + c.len then some (take c.off c.mem) else none

write-empty : (i : ℕ) (s : List ℕ) → write [] i s ≡ []
unfolding write
write-empty zero [] = refl
write-empty zero (c ∷ s) = refl
write-empty (suc i) s = refl

pub write-nothing : (m : List ℕ) (i : ℕ) → write m i [] ≡ m
unfolding write
write-nothing m zero = refl
write-nothing [] (suc i) = refl
write-nothing (x ∷ m) (suc i) = rw (write-nothing m i)

pub length-write : (m : List ℕ) (i : ℕ) (s : List ℕ) → length (write m i s) ≡ length m
unfolding write
length-write m zero [] = refl
length-write [] zero (c ∷ s) = refl
length-write (x ∷ m) zero (c ∷ s) = omega (arith, length-write m zero s)
length-write [] (suc i) s = refl
length-write (x ∷ m) (suc i) s = omega (arith, length-write m i s)

pub take-write :
    (m : List ℕ) (i : ℕ) (s : List ℕ)
    → i + length s ≤ length m
    → take (i + length s) (write m i s) ≡ take i m ++ s
unfolding write
take-write m zero [] h = refl
take-write [] zero (c ∷ s) h = absurd (omega arith)
take-write (x ∷ m) zero (c ∷ s) h =
    let e : 0 + suc (length s) ≡ suc (0 + length s) = omega arith in
    rw e (ap (λ t. c ∷ t) (take-write m zero s (omega arith)))
take-write [] (suc i) s h = absurd (omega arith)
take-write (x ∷ m) (suc i) s h = rw suc-add (ap (λ t. x ∷ t) (take-write m i s (omega arith)))

-- Two writes one behind the other are one.
pub write-write :
    (m : List ℕ) (i : ℕ) (s t : List ℕ) → write (write m i s) (i + length s) t ≡ write m i (s ++ t)
unfolding write
write-write m zero [] t = refl
write-write [] zero (c ∷ s) t = write-empty (0 + length (c ∷ s)) t
write-write (x ∷ m) zero (c ∷ s) t =
    let e : 0 + suc (length s) ≡ suc (0 + length s) = omega arith in
    rw e (ap (λ r. c ∷ r) (write-write m zero s t))
write-write [] (suc i) s t = write-empty (suc i + length s) t
write-write (x ∷ m) (suc i) s t = rw suc-add (ap (λ r. x ∷ r) (write-write m i s t))

-- A buffer of `size` bytes that is being filled, or NULL after an overflow.
abbrev pub IsValid : ℕ → Option Cursor → Type 0
IsValid size none = Unit
IsValid size (some c) = (c.off + c.len ≡ size) × (length c.mem ≡ size)

-- The contract: appending to a text that has room for `size` bytes. Once it overflows it stays so.
unfoldable pub append_within : ℕ → Option (List ℕ) → List ℕ → Option (List ℕ)
append_within size none s = none
append_within size (some t) s = if leb (length t + length s) size then some (t ++ s) else none

-- A writer that fills its memory with `s` and checks for that many bytes meets the contract.
pub commit-refines :
    (size : ℕ) (c : Cursor) (s : List ℕ) (n : ℕ) (m : List ℕ)
    → IsValid size (some c)
    → n ≡ length s
    → m ≡ write c.mem c.off s
    → IsValid size (commit c n m)
      × (pushed size (commit c n m) ≡ append_within size (pushed size (some c)) s)
unfolding commit pushed append_within
commit-refines size c s n m v e f =
    ground (arith, length-take c.off c.mem, take-write c.mem c.off s, length-write c.mem c.off s)

-- `apk_blob_push_blob` on a valid buffer keeps it valid and appends the literal to what the buffer
-- holds, or makes it NULL exactly when there is no room; a NULL buffer stays NULL.
pub push_blob-refines :
    (size : ℕ) (o : Option Cursor) (s : List ℕ)
    → IsValid size o
    → IsValid size (push_blob o s)
      × (pushed size (push_blob o s) ≡ append_within size (pushed size o) s)
unfolding push_blob pushed append_within
push_blob-refines size none s v = (tt, refl)
push_blob-refines size (some c) s v = commit-refines size c s (length s) _ v refl refl

-- Two appends one behind the other are one.
pub append_within_twice :
    (size : ℕ) (t : Option (List ℕ)) (p q : List ℕ)
    → append_within size (append_within size t p) q ≡ append_within size t (p ++ q)
unfolding append_within
append_within_twice size none p q = refl
append_within_twice size (some t) p q = elim (Bool-cases (leb (length t + length p) size)) [
  | inl e ↦
      rw (e, append_within)
        (ground (arith, length-append t p, length-append p q, append_assoc t p q))
  | inr e ↦ rw (e, append_within) (ground (arith, length-append p q))
]
