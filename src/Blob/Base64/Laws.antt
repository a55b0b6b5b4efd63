-- ===== src/Blob/Base64/Laws.antt =====
-- Base64 text is what it should be, and is read back.
use arianna_method_anchor_pr.Prelude.{
  ℕ, zero, suc, ◌+◌, ◌*◌, ◌/◌, ◌%◌, ◌<◌, ◌≡◌, ◌≢◌, ◌∙◌, sym, refl, ap, true, false, not, ◌&&◌, ◌||◌,
  Option, none, some, List, [], ◌∷◌, ◌++◌, arith, ◌==◌, length, get_or, drop, length-append,
  holds_below, holds_below_sound, pos,
}
use arianna_method_anchor_pr.Blob.Cursor.{
  Cursor, write, write-write, write-nothing, commit-refines, pushed, IsValid, append_within,
}
use arianna_method_anchor_pr.Blob.Base64.{
  b64encode, b64decode, push_b64_chunk, b64_loop, needed, push_base64, bad, pull_b64_chunk, unpack,
  unb64_loop, pull_base64,
}
use arianna_method_anchor_pr.Blob.Hex.{Bytes}

-- Four characters for three bytes; a last chunk of one or two bytes takes what stands `behind` it.
pub base64 : List ℕ → List ℕ → List ℕ
base64 behind (a ∷ b ∷ c ∷ s) = push_b64_chunk a b c 4 ++ base64 behind s
base64 behind (a ∷ b ∷ []) = push_b64_chunk a b (get_or behind 0 0) 2
base64 behind (a ∷ []) = push_b64_chunk a (get_or behind 0 0) (get_or behind 1 0) 1
base64 behind [] = []

length-base64 : (behind s : List ℕ) → needed (length s) ≡ length (base64 behind s)
unfolding base64 push_b64_chunk
length-base64 behind (a ∷ b ∷ c ∷ s) = omega (arith, length-base64 behind s)
length-base64 behind (a ∷ b ∷ []) = refl
length-base64 behind (a ∷ []) = refl
length-base64 behind [] = refl

b64_loop-write :
    (behind m : List ℕ) (d : ℕ) (s : List ℕ) → b64_loop behind m d s ≡ write m d (base64 behind s)
unfolding b64_loop base64 push_b64_chunk
b64_loop-write behind m d (a ∷ b ∷ c ∷ s) =
    b64_loop-write behind (write m d (push_b64_chunk a b c 4)) (d + 4) s
    ∙ write-write m d (push_b64_chunk a b c 4) (base64 behind s)
b64_loop-write behind m d (a ∷ b ∷ []) = refl
b64_loop-write behind m d (a ∷ []) = refl
b64_loop-write behind m d [] = sym (write-nothing m d)

-- `apk_blob_push_base64` on a valid buffer keeps it valid and appends the base64 text, or makes it
-- NULL exactly when there is no room; a NULL buffer stays NULL.
pub push_base64-refines :
    (size : ℕ) (o : Option Cursor) (behind s : List ℕ)
    → IsValid size o
    → IsValid size (push_base64 behind o s)
      × (pushed size (push_base64 behind o s)
          ≡ append_within size (pushed size o) (base64 behind s))
unfolding push_base64 pushed append_within
push_base64-refines size none behind s v = (tt, refl)
push_base64-refines size (some c) behind s v =
    commit-refines size c (base64 behind s) (needed (length s)) _ v (length-base64 behind s)
      (b64_loop-write behind c.mem c.off s)

good_digit : (i : ℕ) → i < 64 → (bad (b64encode i) ≡ false) × (b64decode (b64encode i) ≡ i)
good_digit i h = ground (
  arith,
  holds_below_sound (λ j. not (bad (b64encode j)) && b64decode (b64encode j) == j) 64 i h
      (unfold holds_below bad b64encode b64decode in refl),
)

good_pad : (bad b'=' ≡ false) × (b64decode b'=' ≡ 0)
unfolding bad b64decode
good_pad = (refl, refl)

pull_b64_chunk-three :
    (x y z a b c : ℕ) (rest : List ℕ)
    → a < 256
    → b < 256
    → c < 256
    → pull_b64_chunk (x ∷ y ∷ z ∷ []) (push_b64_chunk a b c 4 ++ rest) ≡ (pos 0, a ∷ b ∷ c ∷ [])
unfolding pull_b64_chunk push_b64_chunk unpack
pull_b64_chunk-three x y z a b c rest ha hb hc = ground (
  arith,
  good_digit (a / 4) (omega arith),
  good_digit (a % 4 * 16 + b / 16) (omega arith),
  good_digit (b % 16 * 4 + c / 64) (omega arith),
  good_digit (c % 64) (omega arith),
)

pull_b64_chunk-two :
    (x y a b f : ℕ) (rest : List ℕ)
    → a < 256
    → b < 256
    → f < 256
    → pull_b64_chunk (x ∷ y ∷ []) (push_b64_chunk a b f 2 ++ rest) ≡ (pos 0, a ∷ b ∷ [])
unfolding pull_b64_chunk push_b64_chunk unpack
pull_b64_chunk-two x y a b f rest ha hb hf = ground (
  arith,
  good_digit (a / 4) (omega arith),
  good_digit (a % 4 * 16 + b / 16) (omega arith),
  good_digit (b % 16 * 4 + f / 64) (omega arith),
  good_pad,
)

pull_b64_chunk-one :
    (x a f g : ℕ) (rest : List ℕ)
    → a < 256
    → f < 256
    → pull_b64_chunk (x ∷ []) (push_b64_chunk a f g 1 ++ rest) ≡ (pos 0, a ∷ [])
unfolding pull_b64_chunk push_b64_chunk unpack
pull_b64_chunk-one x a f g rest ha hf = ground (
  arith,
  good_digit (a / 4) (omega arith),
  good_digit (a % 4 * 16 + f / 16) (omega arith),
  good_pad,
)

get_or-byte : (s : List ℕ) (i : ℕ) → Bytes s → get_or s i 0 < 256
get_or-byte [] i b = omega arith
get_or-byte (c ∷ s) zero b = b.0
get_or-byte (c ∷ s) (suc i) b = get_or-byte s i b.1

unb64_loop-base64 :
    (to behind s rest : List ℕ)
    → length to ≡ length s
    → Bytes behind
    → Bytes s
    → unb64_loop to (base64 behind s ++ rest) ≡ s
unfolding unb64_loop base64 push_b64_chunk
unb64_loop-base64 [] behind [] rest h bb bs = refl
unb64_loop-base64 (x ∷ []) behind (a ∷ []) rest h bb bs =
    ap (λ r. r.1)
      (pull_b64_chunk-one x a (get_or behind 0 0) (get_or behind 1 0) rest bs.0
        (get_or-byte behind 0 bb))
unb64_loop-base64 (x ∷ y ∷ []) behind (a ∷ b ∷ []) rest h bb bs =
    ap (λ r. r.1)
      (pull_b64_chunk-two x y a b (get_or behind 0 0) rest bs.0 bs.1.0 (get_or-byte behind 0 bb))
unb64_loop-base64 (x ∷ y ∷ z ∷ ts) behind (a ∷ b ∷ c ∷ s) rest h bb bs =
    let chunk = pull_b64_chunk-three x y z a b c (base64 behind s ++ rest) bs.0 bs.1.0 bs.1.1.0 in
    let later = unb64_loop-base64 ts behind s rest (omega arith) bb bs.1.1.1 in
    λ i. (chunk i).1 ++ later i
unb64_loop-base64 to behind s rest h bb bs = absurd (omega arith)

drop-append : (p s : List ℕ) → drop (length p) (p ++ s) ≡ s
drop-append [] s = refl
drop-append (c ∷ p) s = drop-append p s

-- The reader takes back what the writer wrote, whatever stood behind the bytes in memory: on the
-- text of as many bytes as `to` has room for, with anything after it, it fills `to` with those
-- bytes and leaves the cursor behind the text.
pub pull_base64-base64 :
    (to behind s rest : List ℕ)
    → length to ≡ length s
    → Bytes behind
    → Bytes s
    → pull_base64 (some (base64 behind s ++ rest)) to ≡ (some rest, s)
unfolding pull_base64
pull_base64-base64 to behind s rest h bb bs = ground (
  arith,
  length-base64 behind s,
  length-append (base64 behind s) rest,
  drop-append (base64 behind s) rest,
  unb64_loop-base64 to behind s rest h bb bs,
)

-- The status of a chunk is dropped: four characters of which one is bad are accepted like good
-- ones, and leave the three bytes of the destination as they were.
pub pull_base64-bad :
    (a b c d x y z : ℕ)
    → (bad a || bad b || bad c || bad d) ≡ true
    → pull_base64 (some (a ∷ b ∷ c ∷ d ∷ [])) (x ∷ y ∷ z ∷ []) ≡ (some [], x ∷ y ∷ z ∷ [])
unfolding pull_base64 pull_b64_chunk
pull_base64-bad a b c d x y z h = ground arith

-- The second character of a lone byte is made from the byte that stands behind the blob too: where
-- two such bytes differ in their high half, so do the texts.
pub base64_reads_behind :
    (a f g : ℕ)
    → f < 256
    → g < 256
    → f / 16 ≢ g / 16
    → base64 (f ∷ []) (a ∷ []) ≢ base64 (g ∷ []) (a ∷ [])
unfolding base64 push_b64_chunk
base64_reads_behind a f g hf hg ne e =
    let second = ap (λ (s : List ℕ). b64decode (get_or s 1 0)) e in
    ne (
      omega (
        arith,
        second,
        (good_digit (a % 4 * 16 + f / 16) (omega arith)).1,
        (good_digit (a % 4 * 16 + g / 16) (omega arith)).1,
      ))
