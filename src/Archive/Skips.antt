-- ===== src/Archive/Skips.antt =====
-- apk-tools/src/archive.c: how far the callback and the lines behind it take the stream.
use arianna_method_anchor_pr.Prelude.{
  ℕ, zero, suc, ◌+◌, ◌-◌, ◌%◌, ◌^◌, ◌≤◌, ◌<◌, ◌≡◌, refl, ap, sym, ◌∙◌, Option, none, some, List, [],
  ◌∷◌, ltb, ◌==◌, if◌then◌else◌, length, take, drop, ℤ, pos, arith, if_either, Bool-cases, inl, inr,
  length-take,
}
use arianna_method_anchor_pr.Archive.{Stream, end_status, read_left, read}
use arianna_method_anchor_pr.Archive.Entry.{
  Teis, Reader, leave, ask, hash_more, after_read, entry_read, run_reader,
}
use arianna_method_anchor_pr.Archive.Parse.{toskip, skip_rest}

drop-nil : (n : ℕ) → drop {A = ℕ} n [] ≡ []
drop-nil zero = refl
drop-nil (suc n) = refl

pub drop-drop : (m n : ℕ) (xs : List ℕ) → drop m (drop n xs) ≡ drop (n + m) xs
drop-drop m zero xs = ap (λ k. drop k xs) (omega arith)
drop-drop m (suc n) [] = drop-nil m ∙ sym (drop-nil (suc n + m))
drop-drop m (suc n) (x ∷ xs) =
    let e : suc n + m ≡ suc (n + m) = omega arith in rw e (drop-drop m n xs)

-- A read of some bytes of the entry's stream.
abbrev pub Consumes : Teis → Teis → Type 0
Consumes t t' =
    (k : ℕ) × (k ≤ t.bytes_left)
    × (t'.bytes_left ≡ t.bytes_left - k)
    × (t'.tar_is.left ≡ drop k t.tar_is.left)

pub Consumes-refl : (t : Teis) → Consumes t t
Consumes-refl t = (0, omega arith, omega arith, refl)

Consumes-trans : (t u v : Teis) → Consumes t u → Consumes u v → Consumes t v
Consumes-trans t u v (k, h, e, l) (k', h', e', l') =
    (k + k', omega arith, omega arith, rw (l', l) (drop-drop k' k t.tar_is.left))

-- `n` bytes further on.
read_left_position :
    (xs : List ℕ) (n : ℕ) (s : Stream) → s.left ≡ xs → (read_left xs n s).2.left ≡ drop n xs
read_left_position [] n s e = rw (e, drop-nil n) refl
read_left_position (x ∷ xs) n s e = refl

pub read_position : (s : Stream) (n : ℕ) → (read s n).2.left ≡ drop n s.left
unfolding read
read_position s n = read_left_position s.left n s refl

drop-length-take : (n : ℕ) (xs : List ℕ) → drop (length (take n xs)) xs ≡ drop n xs
drop-length-take zero xs = refl
drop-length-take (suc n) [] = refl
drop-length-take (suc n) (x ∷ xs) = drop-length-take n xs

module _ (hash : List ℕ → List ℕ) where
  hash_more-Consumes :
      (t u : Teis) (bs : List ℕ) (o : Option (List ℕ))
      → Consumes t u
      → Consumes t (hash_more hash bs u o)
  hash_more-Consumes t u bs none c = c
  hash_more-Consumes t u bs (some h) c = c

  ended-Consumes :
      (t : Teis) (e : ℕ) → Consumes t (after_read hash t (end_status e, [], t.tar_is)).2
  ended-Consumes t zero =
      hash_more-Consumes t (record t { bytes_left = t.bytes_left - 0 }) [] t.hashed
        (0, omega arith, refl, refl)
  ended-Consumes t (suc e) = Consumes-refl t

  after_read-Consumes :
      (t : Teis) (n : ℕ) (xs : List ℕ)
      → n ≤ t.bytes_left
      → t.tar_is.left ≡ xs
      → Consumes t (after_read hash t (read_left xs n t.tar_is)).2
  after_read-Consumes t n [] h e = ended-Consumes t t.tar_is.error
  after_read-Consumes t n (x ∷ xs) h e =
      let got = take n (x ∷ xs) in
      let m = length-take n (x ∷ xs) in
      hash_more-Consumes t
        (record t {
          tar_is = record t.tar_is { left = drop n (x ∷ xs) };
          bytes_left = t.bytes_left - length got;
        })
        got t.hashed (length got, omega arith, refl, rw e (sym (drop-length-take n (x ∷ xs))))

  entry_read-Consumes : (t : Teis) (n : ℕ) → Consumes t (entry_read hash t n).2
  unfolding entry_read read
  entry_read-Consumes t n =
      let m = if ltb t.bytes_left n then t.bytes_left else n in
      let h : m ≤ t.bytes_left = ground arith in
      if_either (λ (o : ℤ × List ℕ × Teis). Consumes t o.2) (m == 0) (pos 0, [], t)
        (after_read hash t (read t.tar_is m)) (Consumes-refl t)
        (after_read-Consumes t m t.tar_is.left h refl)

  pub run_reader-Consumes {ℓ} :
      {C : Type ℓ} (p : Reader C) (t : Teis) → Consumes t (run_reader hash p t).2
  unfolding run_reader
  run_reader-Consumes (leave r c) t = Consumes-refl t
  run_reader-Consumes (ask n k) t =
      let (r, bs, t') = entry_read hash t n in
      Consumes-trans t t' (run_reader hash (k r bs t'.csum) t').2 (entry_read-Consumes t n)
        (run_reader-Consumes (k r bs t'.csum) t')

-- The size of an entry with what fills its last record.
abbrev pub padded : ℕ → ℕ
padded n = if n % 512 == 0 then n else n + (512 - n % 512)

mod_mod : (x : ℕ) → x % 2 ^ 64 % 512 ≡ x % 512
mod_mod x = omega arith

-- The bytes that are skipped fill the last record, however much has been read.
toskip-padded :
    (offset n m : ℕ)
    → offset % 512 ≡ 0
    → m ≤ n
    → n < 2 ^ 63
    → (n - m) + toskip ((offset + (n - m)) % 2 ^ 64) m ≡ padded n
toskip-padded offset n m a h small =
    let o = offset + (n - m) in
    let e : (o % 2 ^ 64 + m) % 2 ^ 64 % 512 ≡ n % 512 =
      omega (arith, mod_mod (o % 2 ^ 64 + m), mod_mod o) in
    rw e (ground arith)

padded_full : (n : ℕ) → padded n % 512 ≡ 0
padded_full n = ground arith

pub skip_position :
    (offset n : ℕ) (s : Stream) (t : Teis)
    → offset % 512 ≡ 0
    → t.bytes_left ≤ n
    → n < 2 ^ 63
    → t.tar_is.left ≡ drop (n - t.bytes_left) s.left
    → ((skip_rest offset n t).0 % 512 ≡ 0)
      × ((skip_rest offset n t).1.left ≡ drop (padded n) s.left)
unfolding skip_rest
skip_position offset n s t a h small e =
    let m = t.bytes_left in
    let o = (offset + (n - m)) % 2 ^ 64 in
    let k = toskip o m in
    let p : (n - m) + k ≡ padded n = toskip-padded offset n m a h small in
    let full = padded_full n in
    (
      omega (arith, mod_mod (o + k), mod_mod (offset + (n - m))),
      elim (Bool-cases (k == 0)) [
        | inl z ↦ let q : n - m ≡ padded n = ground arith in rw z (e ∙ ap (λ x. drop x s.left) q)
        | inr z ↦ rw z (
            read_position t.tar_is k
            ∙ ap (drop k) e
            ∙ drop-drop k (n - m) s.left
            ∙ ap (λ x. drop x s.left) p)
      ],
    )

-- Whatever the sizes are, no bytes are put back.
pub skip_rest-drop :
    (offset n : ℕ) (t : Teis) → (k : ℕ) × ((skip_rest offset n t).1.left ≡ drop k t.tar_is.left)
unfolding skip_rest
skip_rest-drop offset n t =
    let m = toskip ((offset + (n - t.bytes_left)) % 2 ^ 64) t.bytes_left in
    elim (Bool-cases (m == 0)) [
      | inl z ↦ rw z (0, refl)
      | inr z ↦ rw z (m, read_position t.tar_is m)
    ]

-- Behind a long name, its bytes are already in `offset`.
pub skip_shift :
    (offset n : ℕ) (t : Teis)
    → t.bytes_left ≡ 0
    → skip_rest ((offset + n) % 2 ^ 64) 0 t ≡ skip_rest offset n t
unfolding skip_rest
skip_shift offset n t b =
    let q : ((offset + n) % 2 ^ 64 + (0 - 0)) % 2 ^ 64 ≡ (offset + (n - 0)) % 2 ^ 64 =
      omega arith in
    rw b (rw q refl)
