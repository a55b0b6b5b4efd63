-- ===== src/Blob/Base64.antt =====
-- apk-tools/src/blob.c: base64, written and read.
pub mod Laws
use arianna_method_anchor_pr.Prelude.{
  ℕ, zero, suc, ◌+◌, ◌-◌, ◌*◌, ◌/◌, ◌%◌, ◌≤◌, ◌<◌, ◌≡◌, ◌≢◌, ◌∙◌, sym, refl, Bool, true, false,
  ◌&&◌, ◌||◌, Option, none, some, List, [], ◌∷◌, ◌++◌, arith, ltb, ℤ, pos, negsuc, leb, ◌==◌,
  if◌then◌else◌, length, get_or, take, drop, bytes, length-append, holds_below, holds_below_sound,
}
use arianna_method_anchor_pr.Blob.Cursor.{
  Cursor, write, write-write, write-nothing, commit, commit-refines, pushed, IsValid, append_within,
}

unfoldable pub b64encode : ℕ → ℕ
b64encode i = get_or (bytes "ABCDEFGHIJKLMNOPQRSTUVWXYZabcdefghijklmnopqrstuvwxyz0123456789+/") i 0

unfoldable pub b64decode : ℕ → ℕ
b64decode c =
    get_or
      (0xff ∷ 0xff ∷ 0xff ∷ 0xff ∷ 0xff ∷ 0xff ∷ 0xff ∷ 0xff ∷ 0xff ∷ 0xff ∷ 0xff ∷ 0xff ∷ 0xff
        ∷ 0xff ∷ 0xff ∷ 0xff ∷ 0xff ∷ 0xff ∷ 0xff ∷ 0xff ∷ 0xff ∷ 0xff ∷ 0xff ∷ 0xff ∷ 0xff ∷ 0xff
        ∷ 0xff ∷ 0xff ∷ 0xff ∷ 0xff ∷ 0xff ∷ 0xff ∷ 0xff ∷ 0xff ∷ 0xff ∷ 0xff ∷ 0xff ∷ 0xff ∷ 0xff
        ∷ 0xff ∷ 0xff ∷ 0xff ∷ 0xff ∷ 0x3e ∷ 0xff ∷ 0xff ∷ 0xff ∷ 0x3f ∷ 0x34 ∷ 0x35 ∷ 0x36 ∷ 0x37
        ∷ 0x38 ∷ 0x39 ∷ 0x3a ∷ 0x3b ∷ 0x3c ∷ 0x3d ∷ 0xff ∷ 0xff ∷ 0xff ∷ 0x00 ∷ 0xff ∷ 0xff ∷ 0xff
        ∷ 0x00 ∷ 0x01 ∷ 0x02 ∷ 0x03 ∷ 0x04 ∷ 0x05 ∷ 0x06 ∷ 0x07 ∷ 0x08 ∷ 0x09 ∷ 0x0a ∷ 0x0b ∷ 0x0c
        ∷ 0x0d ∷ 0x0e ∷ 0x0f ∷ 0x10 ∷ 0x11 ∷ 0x12 ∷ 0x13 ∷ 0x14 ∷ 0x15 ∷ 0x16 ∷ 0x17 ∷ 0x18 ∷ 0x19
        ∷ 0xff ∷ 0xff ∷ 0xff ∷ 0xff ∷ 0xff ∷ 0xff ∷ 0x1a ∷ 0x1b ∷ 0x1c ∷ 0x1d ∷ 0x1e ∷ 0x1f ∷ 0x20
        ∷ 0x21 ∷ 0x22 ∷ 0x23 ∷ 0x24 ∷ 0x25 ∷ 0x26 ∷ 0x27 ∷ 0x28 ∷ 0x29 ∷ 0x2a ∷ 0x2b ∷ 0x2c ∷ 0x2d
        ∷ 0x2e ∷ 0x2f ∷ 0x30 ∷ 0x31 ∷ 0x32 ∷ 0x33 ∷ 0xff ∷ 0xff ∷ 0xff ∷ 0xff ∷ 0xff ∷ [])
      c 0

-- The four bytes that `push_b64_chunk` stores. `x & (2^k - 1)` is `x % 2^k`, and the operands of
-- each `|` have no bit in common, so that it is `+`.
unfoldable pub push_b64_chunk : ℕ → ℕ → ℕ → ℕ → List ℕ
unfolding b64encode
push_b64_chunk f₀ f₁ f₂ len =
    b64encode (f₀ / 4)
    ∷ b64encode (f₀ % 4 * 16 + f₁ / 16)
    ∷ (if ltb len 2 then b'=' else b64encode (f₁ % 16 * 4 + f₂ / 64))
    ∷ (if ltb len 3 then b'=' else b64encode (f₂ % 64))
    ∷ []

-- The loop of `apk_blob_push_base64` and the chunk behind it. The last chunk is made from three
-- bytes too; those behind the blob's end are the ones that stand in memory there, `behind`.
pub b64_loop : List ℕ → List ℕ → ℕ → List ℕ → List ℕ
b64_loop behind m d (a ∷ b ∷ c ∷ s) = b64_loop behind (write m d (push_b64_chunk a b c 4)) (d + 4) s
b64_loop behind m d (a ∷ b ∷ []) = write m d (push_b64_chunk a b (get_or behind 0 0) 2)
b64_loop behind m d (a ∷ []) =
    write m d (push_b64_chunk a (get_or behind 0 0) (get_or behind 1 0) 1)
b64_loop behind m d [] = m

abbrev pub needed : ℕ → ℕ
needed n = (n + 2) / 3 * 4

unfoldable pub push_base64 : List ℕ → Option Cursor → List ℕ → Option Cursor
unfolding b64_loop push_b64_chunk commit write
push_base64 behind none s = none
push_base64 behind (some c) s = commit c (needed (length s)) (b64_loop behind c.mem c.off s)

-- `from[i] >= 0x80 || b64decode[from[i]] == 0xff`
unfoldable pub bad : ℕ → Bool
unfolding b64decode
bad c = leb 0x80 c || b64decode c == 0xff

-- What the four bytes at `from` make of a destination of one, two or three bytes, and the status.
-- A missing `=` is told after the bytes are stored.
unpack : List ℕ → List ℕ → ℤ × List ℕ
unfolding b64decode
unpack [] s = (pos 0, [])
unpack (x ∷ []) s =
    let t₀ = b64decode (get_or s 0 0) in
    let t₁ = b64decode (get_or s 1 0) in
    (
      (if get_or s 2 0 == b'=' && get_or s 3 0 == b'=' then pos 0 else negsuc 0),
      (t₀ * 4 + t₁ / 16) % 256 ∷ [],
    )
unpack (x ∷ y ∷ []) s =
    let t₀ = b64decode (get_or s 0 0) in
    let t₁ = b64decode (get_or s 1 0) in
    let t₂ = b64decode (get_or s 2 0) in
    (
      (if get_or s 3 0 == b'=' then pos 0 else negsuc 0),
      (t₀ * 4 + t₁ / 16) % 256 ∷ (t₁ * 16 + t₂ / 4) % 256 ∷ [],
    )
unpack (x ∷ y ∷ z ∷ r) s =
    let t₀ = b64decode (get_or s 0 0) in
    let t₁ = b64decode (get_or s 1 0) in
    let t₂ = b64decode (get_or s 2 0) in
    let t₃ = b64decode (get_or s 3 0) in
    (pos 0, (t₀ * 4 + t₁ / 16) % 256 ∷ (t₁ * 16 + t₂ / 4) % 256 ∷ (t₂ % 4 * 64 + t₃) % 256 ∷ [])

-- A bad byte leaves the destination `to` as it was.
pub pull_b64_chunk : List ℕ → List ℕ → ℤ × List ℕ
unfolding bad unpack
pull_b64_chunk to s =
    if bad (get_or s 0 0) || bad (get_or s 1 0) || bad (get_or s 2 0) || bad (get_or s 3 0)
    then (negsuc 0, to)
    else unpack to s

-- The loop of `apk_blob_pull_base64` and the chunk behind it, which drop every status.
pub unb64_loop : List ℕ → List ℕ → List ℕ
unfolding pull_b64_chunk
unb64_loop [] s = []
unb64_loop (x ∷ []) s = (pull_b64_chunk (x ∷ []) s).1
unb64_loop (x ∷ y ∷ []) s = (pull_b64_chunk (x ∷ y ∷ []) s).1
unb64_loop (x ∷ y ∷ z ∷ ts) s = (pull_b64_chunk (x ∷ y ∷ z ∷ []) s).1 ++ unb64_loop ts (drop 4 s)

-- The new cursor, and the destination, which is given with its old contents.
unfoldable pub pull_base64 : Option (List ℕ) → List ℕ → Option (List ℕ) × List ℕ
unfolding unb64_loop
pull_base64 none to = (none, to)
pull_base64 (some b) to =
    if ltb (length b) (needed (length to))
    then (none, to)
    else (some (drop (needed (length to)) b), unb64_loop to b)
