-- ===== src/Blob/Checksum/Laws.antt =====
-- Checksums are written as their text, and read back.
use arianna_method_anchor_pr.Prelude.{
  ℕ, zero, suc, ◌/◌, ◌%◌, ◌≡◌, ◌⊎◌, inl, inr, refl, ◌∙◌, ap, ◌==◌, if◌then◌else◌, Option, some,
  List, [], ◌∷◌, ◌++◌, bytes, take, drop, length, length-take, arith, true, Bool-cases,
}
use arianna_method_anchor_pr.Blob.Cursor.{
  Cursor, push_blob, pushed, IsValid, append_within, append_within_twice, push_blob-refines,
}
use arianna_method_anchor_pr.Blob.Hex.{
  dx-xd, hex, push_hexdump-refines, pull_hexdump-hex, ok, Bytes,
}
use arianna_method_anchor_pr.Blob.Base64.Laws.{base64, push_base64-refines, pull_base64-base64}
use arianna_method_anchor_pr.Blob.Checksum.{
  Checksum, md5, sha1, digest, behind, stored, push_csum, pull_dump, pull_text, pull_encoded,
  pull_known, pull_csum,
}

-- A checksum that was computed: one of the two kinds, over 20 bytes of memory.
pub record IsChecksum (c : Checksum) : Type 0 where
  pub size : length c.data_bytes ≡ 20
  pub known : (c.kind ≡ md5) ⊎ (c.kind ≡ sha1)
  pub all_bytes : Bytes c.data_bytes

pub csum_text : Checksum → List ℕ
csum_text c = if c.kind == md5 then hex (digest c) else bytes "Q1" ++ base64 (behind c) (digest c)

-- `apk_blob_push_csum` on a valid buffer keeps it valid and appends the text of the checksum: the
-- hex dump of an MD5 sum, or `Q1` and the base64 of a SHA1 sum. It makes the buffer NULL exactly
-- when there is no room; a NULL buffer stays NULL.
pub push_csum-refines :
    (size : ℕ) (o : Option Cursor) (c : Checksum)
    → IsChecksum c
    → IsValid size o
    → IsValid size (push_csum o c)
      × (pushed size (push_csum o c) ≡ append_within size (pushed size o) (csum_text c))
unfolding push_csum csum_text
push_csum-refines size o c known v = elim (Bool-cases (c.kind == md5)) [
  | inl e ↦ rw e (push_hexdump-refines size o (digest c) v)
  | inr e ↦
      let is_sha1 : (c.kind == sha1) ≡ true = ground (arith, known.known) in
      let (v₁, p₁) = push_blob-refines size o (bytes "Q1") v in
      let (v₂, p₂) = push_base64-refines size (push_blob o (bytes "Q1")) (behind c) (digest c) v₁ in
      rw (e, is_sha1)
        (
          v₂,
          rw (p₂, p₁)
              (append_within_twice size (pushed size o) (bytes "Q1")
                (base64 (behind c) (digest c))),
        )
]

Bytes-take : (n : ℕ) (s : List ℕ) → Bytes s → Bytes (take n s)
Bytes-take zero s b = tt
Bytes-take (suc n) [] b = tt
Bytes-take (suc n) (c ∷ s) b = (b.0, Bytes-take n s b.1)

Bytes-drop : (n : ℕ) (s t : List ℕ) → Bytes s → Bytes t → Bytes (drop n s ++ t)
Bytes-drop zero [] t b bt = bt
Bytes-drop zero (c ∷ s) t b bt = (b.0, Bytes-drop zero s t b.1 bt)
Bytes-drop (suc n) [] t b bt = bt
Bytes-drop (suc n) (c ∷ s) t b bt = Bytes-drop n s t b.1 bt

pull_dump-hex :
    (kind : ℕ) (d rest : List ℕ) (old : Checksum)
    → length (take kind old.data_bytes) ≡ length d
    → Bytes d
    → pull_dump kind (hex d ++ rest) old ≡ ok (some rest, stored old kind d)
unfolding pull_dump
pull_dump-hex kind d rest old h b =
    rw (pull_hexdump-hex (take kind old.data_bytes) d rest h b, pull_dump) refl

pull_text-base64 :
    (d b rest : List ℕ) (old : Checksum)
    → length (take sha1 old.data_bytes) ≡ length d
    → Bytes b
    → Bytes d
    → pull_text (base64 b d ++ rest) old ≡ (some rest, stored old sha1 d)
unfolding pull_text
pull_text-base64 d b rest old h bb bd =
    rw (pull_base64-base64 (take sha1 old.data_bytes) b d rest h bb bd) refl

-- A dump of MD5 begins with a digit.
pull_csum-hex :
    (d rest : List ℕ) (old : Checksum)
    → length d ≡ 16
    → pull_csum (some (hex d ++ rest)) old ≡ pull_dump md5 (hex d ++ rest) old
unfolding pull_csum pull_known hex
pull_csum-hex [] rest old h = absurd (omega arith)
pull_csum-hex (b ∷ s) rest old h = rw (dx-xd (b / 16 % 16) (omega arith), pull_known) refl

module _ (d rest : List ℕ) (old : Checksum) (size : length d ≡ 20) (b : Bytes d)
    (room : length old.data_bytes ≡ 20) where
  abbrev of_kind : ℕ → Checksum
  of_kind k = record { data_bytes = d; kind = k }

  abbrev ReadsBack : ℕ → Type 0
  ReadsBack k =
      pull_csum (some (csum_text (of_kind k) ++ rest)) old
      ≡ ok (some rest, stored old k (digest (of_kind k)))

  same_length : (k : ℕ) → length (take k old.data_bytes) ≡ length (take k d)
  same_length k = omega (arith, length-take k old.data_bytes, length-take k d)

  md5-ReadsBack : ReadsBack md5
  unfolding csum_text
  md5-ReadsBack =
      pull_csum-hex (take 16 d) rest old (omega (arith, length-take 16 d))
      ∙ pull_dump-hex md5 (take 16 d) rest old (same_length 16) (Bytes-take 16 d b)

  sha1-ReadsBack : ReadsBack sha1
  unfolding csum_text pull_csum pull_known pull_encoded
  sha1-ReadsBack = ap ok (
      pull_text-base64 (take 20 d) (drop 20 d ++ 20 ∷ []) rest old (same_length 20)
        (Bytes-drop 20 d (20 ∷ []) b (omega arith)) (Bytes-take 20 d b))

  known_ReadsBack : (k : ℕ) → (k ≡ md5) ⊎ (k ≡ sha1) → ReadsBack k
  known_ReadsBack k (inl e) = rw e md5-ReadsBack
  known_ReadsBack k (inr e) = rw e sha1-ReadsBack

-- `apk_blob_pull_csum` takes back the text that `apk_blob_push_csum` writes, with anything behind
-- it: it stores the kind and the bytes of the digest, and leaves the cursor behind the text.
pub pull_csum-csum_text :
    (c old : Checksum) (rest : List ℕ)
    → IsChecksum c
    → length old.data_bytes ≡ 20
    → pull_csum (some (csum_text c ++ rest)) old ≡ ok (some rest, stored old c.kind (digest c))
pull_csum-csum_text c old rest known size =
    known_ReadsBack c.data_bytes rest old known.size known.all_bytes size c.kind known.known
