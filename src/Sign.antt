-- ===== src/Sign.antt =====
-- apk-tools/src/package.c, apk_package.h: the signature context, which checks an archive while its
-- files and the parts of its compressed stream go by.
pub mod Step
pub mod Safety
pub mod Run
pub mod Stages
pub mod Checks
use arianna_method_anchor_pr.Prelude.{
  ℕ, ◌+◌, ◌==◌, Bool, true, false, not, ◌&&◌, ◌||◌, Option, none, some, List, [], ◌∷◌, ◌++◌,
  if◌then◌else◌, take, drop, length, replicate, bytes, ℤ, pos, negsuc, int_eq, is_negative,
}
use arianna_method_anchor_pr.Blob.Slices.{in_set, begins, split, compare, memcmp, for_each_segment}
use arianna_method_anchor_pr.Blob.Hex.{Access, ok, fault, pull_hexdump}
use arianna_method_anchor_pr.Blob.Checksum.{Checksum, md5, sha1}

-- What the code uses of OpenSSL and of the directory of keys.
pub record Evp (Md Ctx Key : Type 0) : Type 0 where
  pub md_null : Md
  pub md_md5 : Md
  pub md_sha1 : Md
  pub md_sha256 : Md
  pub md_dss1 : Md
  pub md_size : Md → ℕ
  pub ctx_size : Ctx → ℕ
  pub ctx_init : Ctx
  -- `EVP_DigestInit_ex` and then `EVP_MD_CTX_set_flags` with `EVP_MD_CTX_FLAG_ONESHOT`
  pub digest_init : Ctx → Md → Ctx
  pub clear_oneshot : Ctx → Ctx
  pub update : Ctx → List ℕ → Ctx
  pub digest_final : Ctx → List ℕ × Ctx
  pub verify_final : Ctx → Option (List ℕ) → Option Key → ℤ
  -- `openat` in a directory, then `PEM_read_bio_PUBKEY`; the outer `none` is a failed `openat`.
  pub open_key : ℤ → List ℕ → Option (Option Key)

abbrev pub sign_none : ℕ
sign_none = 0

abbrev pub sign_verify : ℕ
sign_verify = 1

abbrev pub sign_verify_identity : ℕ
sign_verify_identity = 2

abbrev pub sign_generate_v1 : ℕ
sign_generate_v1 = 3

abbrev pub sign_generate : ℕ
sign_generate = 4

abbrev pub sign_verify_and_generate : ℕ
sign_verify_and_generate = 5

-- -ENOKEY, -EKEYREJECTED and -ECANCELED
abbrev pub enokey : ℤ
enokey = negsuc 125

abbrev pub ekeyrejected : ℤ
ekeyrejected = negsuc 128

abbrev pub ecanceled : ℤ
ecanceled = negsuc 124

-- `APK_MPART_DATA`, `APK_MPART_BOUNDARY` and `APK_MPART_END`
pub data Mpart : Type 0 where
  data_part boundary end_part : Mpart

abbrev pub is_end : Mpart → Bool
is_end end_part = true
is_end p = false

abbrev pub is_data : Mpart → Bool
is_data data_part = true
is_data p = false

pub record SignCtx (Md Ctx Key : Type 0) : Type 0 where
  pub keys_fd : ℤ
  pub action : ℕ
  pub md : Md
  pub num_signatures : ℕ
  pub control_started : Bool
  pub data_started : Bool
  pub has_data_checksum : Bool
  pub control_verified : Bool
  pub data_verified : Bool
  pub data_checksum : List ℕ
  pub identity : Checksum
  pub mdctx : Ctx
  pub signature_data : Option (List ℕ)
  pub pkey : Option Key

-- A file of the archive: `fi->name`, and what `apk_blob_from_istream` reads of it.
pub record Entry : Type 0 where
  pub name : List ℕ
  pub contents : Option (List ℕ)

-- `fi->name[0] != '.' || strchr(fi->name, '/') != NULL`
unfoldable pub is_data_file : List ℕ → Bool
unfolding in_set
is_data_file [] = true
is_data_file (c ∷ s) = not (c == b'.') || in_set b'/' (c ∷ s)

-- The two actions that need the archive's signature.
unfoldable pub verifies : ℕ → Bool
verifies action = action == sign_verify || action == sign_verify_and_generate

-- `untrusted` is `apk_flags & APK_ALLOW_UNTRUSTED`; `stack` is what `calculated` holds before a
-- digest is stored in it.
module _ {Md Ctx Key : Type 0} (evp : Evp Md Ctx Key) (untrusted : Bool) (stack : List ℕ) where
  zeroed : ℕ → ℤ → Md → SignCtx Md Ctx Key
  zeroed action keys_fd md = record {
    keys_fd = keys_fd;
    action = action;
    md = md;
    num_signatures = 0;
    control_started = false;
    data_started = false;
    has_data_checksum = false;
    control_verified = false;
    data_verified = false;
    data_checksum = replicate 64 0;
    identity = record { data_bytes = replicate 20 0; kind = 0 };
    mdctx = evp.digest_init evp.ctx_init md;
    signature_data = none;
    pkey = none;
  }

  -- An action that the `switch` has no case for is stored as it is.
  unfoldable pub sign_init : ℕ → Checksum → ℤ → SignCtx Md Ctx Key
  unfolding zeroed
  sign_init action identity keys_fd =
      if action == sign_verify
      then zeroed action keys_fd evp.md_null
      else if action == sign_verify_identity
      then (if identity.kind == md5
          then record (zeroed action keys_fd evp.md_md5) {
            identity = identity;
            control_started = true;
            data_started = true;
          }
          else record (zeroed action keys_fd evp.md_sha1) { identity = identity })
      else if action == sign_generate_v1
      then record (zeroed action keys_fd evp.md_md5) { control_started = true; data_started = true }
      else if action == sign_generate || action == sign_verify_and_generate
      then zeroed action keys_fd evp.md_sha1
      else record (zeroed action keys_fd evp.md_null) {
        control_started = true;
        data_started = true;
      }

  unfoldable pub is_some {ℓ} : {A : Type ℓ} → Option A → Bool
  is_some none = false
  is_some (some a) = true

  unfoldable pub check_trust : SignCtx Md Ctx Key → ℤ
  unfolding verifies is_some
  check_trust c =
      if verifies c.action && not (is_some c.pkey) && not untrusted then enokey else pos 0

  -- The lines from `openat` on: the key of this name, and the digest that its kind asks for.
  load_key : SignCtx Md Ctx Key → Entry → Option (Option Key) → SignCtx Md Ctx Key
  unfolding begins
  load_key c e none = c
  load_key c e (some none) = record c { pkey = none }
  load_key c e (some (some k)) = record c {
    pkey = some k;
    md = if begins (bytes "R") (drop 6 e.name) then evp.md_sha1 else evp.md_dss1;
    signature_data = e.contents;
  }

  -- A file whose name begins with `.SIGN.`, after it is counted.
  take_signature : SignCtx Md Ctx Key → Entry → SignCtx Md Ctx Key
  unfolding load_key verifies is_some begins
  take_signature c e =
      if not (verifies c.action) || is_some c.pkey
      then c
      else if is_negative c.keys_fd
      then c
      else if begins (bytes "RSA.") (drop 6 e.name) || begins (bytes "DSA.") (drop 6 e.name)
      then load_key c e (evp.open_key c.keys_fd (drop 10 e.name))
      else c

  -- `apk_sign_ctx_process_file`
  unfoldable pub process_file : SignCtx Md Ctx Key → Entry → ℤ × SignCtx Md Ctx Key
  unfolding is_data_file check_trust take_signature begins
  process_file c e =
      if c.data_started
      then (pos 1, c)
      else if is_data_file e.name
      then (let c' = record c { data_started = true; control_started = true } in
          let r = check_trust c' in if is_negative r then (r, c') else (pos 1, c'))
      else if c.control_started
      then (pos 1, c)
      else if not (begins (bytes ".SIGN.") e.name)
      then (pos 1, record c { control_started = true })
      else (pos 0, take_signature (record c { num_signatures = c.num_signatures + 1 }) e)

  -- The dump is stored over the first bytes of the field.
  read_hash : SignCtx Md Ctx Key → List ℕ → Access (SignCtx Md Ctx Key)
  read_hash c r =
      let size = evp.md_size evp.md_sha256 in
      elim (pull_hexdump (some r) (take size c.data_checksum)) [
        | ok p ↦ ok (record c {
          has_data_checksum = true;
          md = evp.md_sha256;
          data_checksum = p.1 ++ drop size c.data_checksum;
        })
        | fault ↦ fault
      ]

  field : SignCtx Md Ctx Key → Option (List ℕ × List ℕ) → Access (SignCtx Md Ctx Key)
  unfolding read_hash
  field c none = ok c
  field c (some (l, r)) =
      if not c.data_started && int_eq (compare (bytes "datahash") l) (pos 0)
      then read_hash c r
      else ok c

  unfoldable pub pkginfo_line : SignCtx Md Ctx Key → List ℕ → Access (SignCtx Md Ctx Key)
  unfolding field
  pkginfo_line c [] = ok c
  pkginfo_line c (x ∷ s) = if x == b'#' then ok c else field c (split (x ∷ s) b' ' (bytes "= "))

  -- A line after a fault is never reached.
  unfoldable pub info_line : Access (SignCtx Md Ctx Key) → List ℕ → ℤ × Access (SignCtx Md Ctx Key)
  unfolding pkginfo_line
  info_line (ok c) s = (pos 0, pkginfo_line c s)
  info_line fault s = (pos 0, fault)
