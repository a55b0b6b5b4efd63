-- ===== src/Archive/Written.antt =====
-- apk-tools/src/archive.c: where a written entry ends.
use arianna_method_anchor_pr.Prelude.{
  ℕ, ◌+◌, ◌-◌, ◌%◌, ◌≤◌, ◌≡◌, ◌∙◌, refl, ap, true, some, List, [], ◌∷◌, ◌++◌, length, replicate, ℤ,
  pos, int_eq, arith, ◌==◌, Bool-cases, inl, inr, length-append, length-replicate,
}
use arianna_method_anchor_pr.Archive.{TarHeader, laid_out, fields_of, bytes_of}
use arianna_method_anchor_pr.Archive.Skips.{padded}
use arianna_method_anchor_pr.Archive.Layout.{IsLaidOut}
use arianna_method_anchor_pr.Archive.Write.{
  TarEntry, header_for, is_regular, write_all, write_done, write_padding, write_data, write_entry,
}
use arianna_method_anchor_pr.Archive.Back.{take_all, header_for-IsLaidOut}

-- A stream that takes all.
abbrev pub sink : List ℕ → List ℕ → ℤ × List ℕ
sink o b = (pos (length b), o ++ b)

int_eq_self : (n : ℕ) → int_eq (pos n) (pos n) ≡ true
int_eq_self n = ground arith

write_all-sink : (o b : List ℕ) (k : List ℕ → ℤ × List ℕ) → write_all sink o b k ≡ k (o ++ b)
write_all-sink o b k = rw (int_eq_self (length b)) refl

abbrev total_length : List (List ℕ) → ℕ
total_length [] = 0
total_length (x ∷ xs) = length x + total_length xs

length-laid_out : (xs : List (List ℕ)) → length (laid_out xs) ≡ total_length xs
length-laid_out [] = refl
length-laid_out (x ∷ xs) = omega (arith, length-append x (laid_out xs), length-laid_out xs)

length-bytes_of : (h : TarHeader) → IsLaidOut h → length (bytes_of h) ≡ 512
length-bytes_of h (l0, l1, l2, l3, l4, l5, l6, l8, l9, l10, l11, l12, l13, l14, l15) =
    omega (arith, length-laid_out (fields_of h))

append_nil : (s : List ℕ) → s ≡ s ++ []
append_nil [] = refl
append_nil (c ∷ s) = rw (← append_nil s) refl

write_padding-sink :
    (o : List ℕ) (size : ℕ)
    → write_padding sink o size ≡ (pos 0, o ++ replicate (padded size - size) 0)
unfolding write_padding
write_padding-sink o size = elim (Bool-cases (512 - size % 512 == 512)) [
  | inl e ↦
      let z : padded size - size ≡ 0 = ground arith in
      rw (e, z) (ap (λ s. (pos 0, s)) (append_nil o))
  | inr e ↦
      let z : 512 - size % 512 ≡ padded size - size = ground arith in
      rw e (
        write_all-sink o (replicate (512 - size % 512) 0) (write_done sink)
        ∙ ap (λ n. (pos 0, o ++ replicate n 0)) z)
]

-- What is written for a record `b`, the data and the padding.
abbrev pub written : List ℕ → List ℕ → List ℕ → ℕ → List ℕ
written o b d size = ((o ++ b) ++ d) ++ replicate (padded size - size) 0

write_data-sink :
    (o b d : List ℕ) (size : ℕ)
    → length d ≡ size
    → write_all sink o b (write_data sink size (some d)) ≡ (pos 0, written o b d size)
write_data-sink o b d size l =
    write_all-sink o b (write_data sink size (some d))
    ∙ ap (λ x. write_all sink (o ++ b) x (λ o'. write_padding sink o' size))
        (take_all size d (omega arith))
    ∙ write_all-sink (o ++ b) d (λ o'. write_padding sink o' size)
    ∙ write_padding-sink ((o ++ b) ++ d) size

padded_full : (n : ℕ) → (padded n % 512 ≡ 0) × (n ≤ padded n)
padded_full n = (ground arith, ground arith)

length-written :
    (o b d : List ℕ) (size : ℕ)
    → length o % 512 ≡ 0
    → length b ≡ 512
    → length d ≡ size
    → length (written o b d size) % 512 ≡ 0
length-written o b d size a h l =
    let (p, q) = padded_full size in
    let z = padded size - size in
    let e₁ = length-append ((o ++ b) ++ d) (replicate z 0) in
    let e₂ = length-append (o ++ b) d in
    let e₃ = length-append o b in let e₄ = length-replicate {A = ℕ} z 0 in omega arith

-- `apk_tar_write_entry` of a regular file with its data, on a stream that takes all, returns 0; it
-- writes the record, the data, and as many zeros as `apk_tar_parse` skips behind an entry of this
-- size, so that the next record begins at a multiple of 512 again.
pub write_entry-padded :
    (now : ℕ) (o : List ℕ) (ae : TarEntry) (d : List ℕ)
    → is_regular ae.file_type ≡ true
    → length d ≡ ae.size
    → length o % 512 ≡ 0
    → (write_entry sink now o ae (some d)
        ≡ (pos 0, written o (bytes_of (header_for now ae)) d ae.size))
      × (length (written o (bytes_of (header_for now ae)) d ae.size) % 512 ≡ 0)
unfolding write_entry
write_entry-padded now o ae d r l a =
    let b = bytes_of (header_for now ae) in
    let h = length-bytes_of (header_for now ae) (header_for-IsLaidOut now ae) in
    (rw r (write_data-sink o b d ae.size l), length-written o b d ae.size a h l)
