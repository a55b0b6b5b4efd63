-- ===== src/Blob/Hex.antt =====
-- apk-tools/src/blob.c: hexadecimal dumps, written and read.
use arianna_method_anchor_pr.Prelude.{
  ℕ, ◌+◌, ◌-◌, ◌*◌, ◌/◌, ◌%◌, ◌≤◌, ◌<◌, ◌≡◌, ◌≢◌, ◌∙◌, sym, refl, ◌&&◌, Option, none, some, List,
  [], ◌∷◌, ◌++◌, arith, ltb, leb, if◌then◌else◌, length, get_or, bytes, length-append, holds_below,
  holds_below_sound, is_some_of, is_some_of→eq,
}
use arianna_method_anchor_pr.Blob.Cursor.{
  Cursor, write, write-write, write-nothing, commit, commit-refines, pushed, IsValid, append_within,
}

unfoldable pub xd : ℕ → ℕ
xd i = get_or (bytes "0123456789abcdefghijklmnopqrstuvwxyz") i 0

-- The loop of `apk_blob_push_hexdump`: two bytes at `d` for each byte of `binary`.
pub hex_loop : List ℕ → ℕ → List ℕ → List ℕ
hex_loop m d [] = m
hex_loop m d (b ∷ s) =
    hex_loop (write (write m d (xd (b / 16 % 16) ∷ [])) (d + 1) (xd (b % 16) ∷ [])) (d + 2) s

unfoldable pub push_hexdump : Option Cursor → List ℕ → Option Cursor
unfolding hex_loop commit write xd
push_hexdump none s = none
push_hexdump (some c) s = commit c (length s * 2) (hex_loop c.mem c.off s)

-- `none` is -1.
unfoldable pub dx : ℕ → Option ℕ
dx c =
    if leb b'0' c && leb c b'9'
    then some (c - b'0')
    else if leb b'a' c && leb c b'f'
    then some (c - b'a' + 0xa)
    else if leb b'A' c && leb c b'F'
    then some (c - b'A' + 0xa)
    else none

-- A read behind the end of the blob is undefined.
pub data Access {ℓ} (A : Type ℓ) : Type ℓ where
  ok : A → Access A
  fault : Access A

-- `*(d++) = r`, before what the later rounds do.
abbrev pub store : ℕ → Access (Option (List ℕ) × List ℕ) → Access (Option (List ℕ) × List ℕ)
store r (ok (b, to)) = ok (b, r ∷ to)
store r fault = fault

-- The loop of `apk_blob_pull_hexdump`: a round for each byte of `to`, which is given with its old
-- contents. An error leaves the rest of `to` as it was.
pub unhex_loop : List ℕ → List ℕ → Access (Option (List ℕ) × List ℕ)
unhex_loop [] s = ok (some s, [])
unhex_loop (t ∷ ts) [] = fault
unhex_loop (t ∷ ts) (x ∷ []) = elim (dx x) [ none ↦ ok (none, t ∷ ts) | some r ↦ fault ]
unhex_loop (t ∷ ts) (x ∷ y ∷ s) = elim (dx x) [
  | none ↦ ok (none, t ∷ ts)
  | some r₁ ↦ elim (dx y) [
    | none ↦ ok (none, t ∷ ts)
    | some r₂ ↦ store (r₁ * 16 + r₂) (unhex_loop ts s)
  ]
]

-- The guard is the source's, `to.len > b->len * 2`.
unfoldable pub pull_hexdump : Option (List ℕ) → List ℕ → Access (Option (List ℕ) × List ℕ)
unfolding unhex_loop dx
pull_hexdump none to = ok (none, to)
pull_hexdump (some b) to = if ltb (length b * 2) (length to) then ok (none, to) else unhex_loop to b

-- Two digits for each byte, the high one first.
unfoldable pub hex : List ℕ → List ℕ
hex [] = []
hex (b ∷ s) = xd (b / 16 % 16) ∷ xd (b % 16) ∷ hex s

length-hex : (s : List ℕ) → length s * 2 ≡ length (hex s)
unfolding hex
length-hex [] = refl
length-hex (b ∷ s) = omega (arith, length-hex s)

hex_loop-write : (m : List ℕ) (d : ℕ) (s : List ℕ) → hex_loop m d s ≡ write m d (hex s)
unfolding hex_loop hex
hex_loop-write m d [] = sym (write-nothing m d)
hex_loop-write m d (b ∷ s) =
    let hi = xd (b / 16 % 16) in
    let lo = xd (b % 16) in
    hex_loop-write (write (write m d (hi ∷ [])) (d + 1) (lo ∷ [])) (d + 2) s
    ∙ rw (write-write m d (hi ∷ []) (lo ∷ [])) (write-write m d (hi ∷ lo ∷ []) (hex s))

-- `apk_blob_push_hexdump` on a valid buffer keeps it valid and appends the two digits of each
-- byte, or makes it NULL exactly when there is no room; a NULL buffer stays NULL.
pub push_hexdump-refines :
    (size : ℕ) (o : Option Cursor) (s : List ℕ)
    → IsValid size o
    → IsValid size (push_hexdump o s)
      × (pushed size (push_hexdump o s) ≡ append_within size (pushed size o) (hex s))
unfolding push_hexdump pushed append_within
push_hexdump-refines size none s v = (tt, refl)
push_hexdump-refines size (some c) s v =
    commit-refines size c (hex s) (length s * 2) _ v (length-hex s) (hex_loop-write c.mem c.off s)

abbrev pub Bytes : List ℕ → Type 0
Bytes [] = Unit
Bytes (b ∷ s) = (b < 256) × Bytes s

pub dx-xd : (i : ℕ) → i < 16 → dx (xd i) ≡ some i
unfolding dx
dx-xd i h =
    is_some_of→eq i (dx (xd i))
      (holds_below_sound (λ j. is_some_of j (dx (xd j))) 16 i h (unfold holds_below xd in refl))

unhex_loop-hex :
    (to s rest : List ℕ)
    → length to ≡ length s
    → Bytes s
    → unhex_loop to (hex s ++ rest) ≡ ok (some rest, s)
unfolding unhex_loop hex
unhex_loop-hex [] [] rest h b = refl
unhex_loop-hex [] (c ∷ s) rest h b = absurd (omega arith)
unhex_loop-hex (t ∷ ts) [] rest h b = absurd (omega arith)
unhex_loop-hex (t ∷ ts) (c ∷ s) rest h b =
    let high : dx (xd (c / 16 % 16)) ≡ some (c / 16 % 16) = dx-xd (c / 16 % 16) (omega arith) in
    let low : dx (xd (c % 16)) ≡ some (c % 16) = dx-xd (c % 16) (omega arith) in
    ground (arith, high, low, unhex_loop-hex ts s rest)

-- The reader takes back what the writer wrote: on the dump of as many bytes as `to` has room for,
-- with anything behind it, it fills `to` with those bytes and leaves the cursor behind the dump.
pub pull_hexdump-hex :
    (to s rest : List ℕ)
    → length to ≡ length s
    → Bytes s
    → pull_hexdump (some (hex s ++ rest)) to ≡ ok (some rest, s)
unfolding pull_hexdump
pull_hexdump-hex to s rest h b =
    ground (arith, length-hex s, length-append (hex s) rest, unhex_loop-hex to s rest)

unhex_loop-ne-fault : (to s : List ℕ) → length to * 2 ≤ length s → unhex_loop to s ≢ fault
unfolding unhex_loop
unhex_loop-ne-fault [] s h e = cc
unhex_loop-ne-fault (t ∷ ts) [] h e = absurd (omega arith)
unhex_loop-ne-fault (t ∷ ts) (x ∷ []) h e = absurd (omega arith)
unhex_loop-ne-fault (t ∷ ts) (x ∷ y ∷ s) h e =
    ground (arith, unhex_loop-ne-fault ts s (omega arith))

-- With two bytes for each byte of `to`, whatever they are, nothing is read past the blob.
pub pull_hexdump-ne-fault :
    (b to : List ℕ) → length to * 2 ≤ length b → pull_hexdump (some b) to ≢ fault
unfolding pull_hexdump
pull_hexdump-ne-fault b to h e = ground (arith, unhex_loop-ne-fault to b h)

abbrev pub Digits : List ℕ → Type 0
Digits [] = Unit
Digits (c ∷ s) = (dx c ≢ none) × Digits s

unhex_loop_overrun : (to b : List ℕ) → Digits b → length b < length to * 2 → unhex_loop to b ≡ fault
unfolding unhex_loop
unhex_loop_overrun [] b d h = absurd (omega arith)
unhex_loop_overrun (t ∷ ts) [] d h = refl
unhex_loop_overrun (t ∷ ts) (x ∷ []) d h = ground arith
unhex_loop_overrun (t ∷ ts) (x ∷ y ∷ s) d h =
    ground (arith, unhex_loop_overrun ts s d.1.1 (omega arith))

-- A blob of hexadecimal digits that is shorter than the dump of `to`, but at least half as long as
-- `to` itself, passes the guard of `apk_blob_pull_hexdump` and is read past its end.
pub pull_hexdump_overrun :
    (to b : List ℕ)
    → Digits b
    → length to ≤ length b * 2
    → length b < length to * 2
    → pull_hexdump (some b) to ≡ fault
unfolding pull_hexdump
pull_hexdump_overrun to b d h short = ground (arith, unhex_loop_overrun to b d short)
