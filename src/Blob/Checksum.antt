-- ===== src/Blob/Checksum.antt =====
-- apk-tools/src/blob.c, apk_blob.h: checksums, written and read.
pub mod Laws
use arianna_method_anchor_pr.Prelude.{
  ℕ, zero, suc, ◌==◌, if◌then◌else◌, Option, none, some, List, [], ◌∷◌, ◌++◌, bytes, take, drop,
  Bool, true, false, ◌≡◌, refl,
}
use arianna_method_anchor_pr.Blob.Cursor.{Cursor, push_blob}
use arianna_method_anchor_pr.Blob.Hex.{dx, push_hexdump, pull_hexdump, Access, ok, fault}
use arianna_method_anchor_pr.Blob.Base64.{push_base64, pull_base64}

-- `struct apk_checksum`: 20 bytes, of which the first `type` count.
pub record Checksum : Type 0 where
  pub data_bytes : List ℕ
  pub kind : ℕ

abbrev pub md5 : ℕ
md5 = 16

abbrev pub sha1 : ℕ
sha1 = 20

-- `APK_BLOB_CSUM`, and what stands behind it: the rest of `data`, then `type`.
abbrev pub digest : Checksum → List ℕ
digest c = take c.kind c.data_bytes

abbrev pub behind : Checksum → List ℕ
behind c = drop c.kind c.data_bytes ++ c.kind ∷ []

unfoldable pub push_csum : Option Cursor → Checksum → Option Cursor
unfolding push_hexdump push_blob push_base64
push_csum to c =
    if c.kind == md5
    then push_hexdump to (digest c)
    else if c.kind == sha1
    then push_base64 (behind c) (push_blob to (bytes "Q1")) (digest c)
    else none

-- The digest is stored over the first bytes of `data`.
abbrev pub stored : Checksum → ℕ → List ℕ → Checksum
stored c kind d = record { data_bytes = d ++ drop kind c.data_bytes; kind = kind }

-- A hex dump of `kind` bytes into the checksum.
pub pull_dump : ℕ → List ℕ → Checksum → Access (Option (List ℕ) × Checksum)
unfolding pull_hexdump
pull_dump kind s c = elim (pull_hexdump (some s) (take kind c.data_bytes)) [
  | ok r ↦ ok (r.0, stored c kind r.1)
  | fault ↦ fault
]

pub pull_text : List ℕ → Checksum → Option (List ℕ) × Checksum
unfolding pull_base64
pull_text s c = let r = pull_base64 (some s) (take sha1 c.data_bytes) in (r.0, stored c sha1 r.1)

-- The `switch` on the encoding, behind the two bytes that name it and the type.
pull_encoded : ℕ → List ℕ → Checksum → Access (Option (List ℕ) × Checksum)
unfolding pull_dump pull_text
pull_encoded encoding s c =
    if encoding == b'X'
    then pull_dump sha1 s c
    else if encoding == b'Q'
    then ok (pull_text s c)
    else ok (none, record c { kind = sha1 })

-- A digit at the front means a dump of MD5.
pull_known : List ℕ → Option ℕ → Checksum → Access (Option (List ℕ) × Checksum)
unfolding pull_dump pull_encoded
pull_known [] d c = ok (none, c)
pull_known (e ∷ []) d c = ok (none, c)
pull_known (e ∷ t ∷ s) (some v) c = pull_dump md5 (e ∷ t ∷ s) c
pull_known (e ∷ t ∷ s) none c = if t == b'1' then pull_encoded e s c else ok (none, c)

unfoldable pub pull_csum : Option (List ℕ) → Checksum → Access (Option (List ℕ) × Checksum)
unfolding pull_known dx
pull_csum none c = ok (none, c)
pull_csum (some []) c = ok (none, c)
pull_csum (some (e ∷ s)) c = pull_known (e ∷ s) (dx e) c
