-- ===== src/Tests/Signatures.antt =====
-- The signature context at work with a toy digest, which keeps all bytes, and a directory with one
-- key, which accepts the bytes themselves as their signature.
use arianna_method_anchor_pr.Prelude.{
  ℕ, refl, true, false, if◌then◌else◌, none, some, List, [], ◌++◌, pos, int_eq, bytes, length,
  replicate,
}
use arianna_method_anchor_pr.Blob.Slices.{compare}
use arianna_method_anchor_pr.Blob.Checksum.{Checksum}
use arianna_method_anchor_pr.Sign.{
  Evp, SignCtx, Entry, boundary, end_part, sign_verify, sign_verify_identity, verifies, sign_init,
}
use arianna_method_anchor_pr.Sign.Safety.{Signed}
use arianna_method_anchor_pr.Sign.Run.{file, part, call, Run, begin, next, verified-Signed}
use arianna_method_anchor_pr.Sign.Stages.{Later, call-Later}

abbrev toy : Evp ℕ (List ℕ) ℕ
unfolding compare
toy = record {
  md_null = 0;
  md_md5 = 16;
  md_sha1 = 20;
  md_sha256 = 2;
  md_dss1 = 20;
  md_size = λ m. m;
  ctx_size = length;
  ctx_init = [];
  digest_init = λ c m. [];
  clear_oneshot = λ c. c;
  update = λ c s. c ++ s;
  digest_final = λ c. (c, c);
  verify_final = λ c s k. elim s [
    | some t ↦ if int_eq (compare t c) (pos 0) then pos 1 else pos 0
    | none ↦ pos 0
  ];
  open_key = λ fd name. if int_eq (compare name (bytes "k")) (pos 0) then some (some 1) else none;
}

abbrev none_known : Checksum
none_known = record { data_bytes = []; kind = 0 }

abbrev signature : Entry
signature = record { name = bytes ".SIGN.RSA.k"; contents = some (bytes "ab") }

abbrev info : Entry
info = record { name = bytes ".PKGINFO"; contents = none }

-- The states after each call.
abbrev s0 : SignCtx ℕ (List ℕ) ℕ
s0 = record {
  keys_fd = pos 3;
  action = sign_verify;
  md = 0;
  num_signatures = 0;
  control_started = false;
  data_started = false;
  has_data_checksum = false;
  control_verified = false;
  data_verified = false;
  data_checksum = replicate 64 0;
  identity = record { data_bytes = replicate 20 0; kind = 0 };
  mdctx = [];
  signature_data = none;
  pkey = none;
}

abbrev s1 : SignCtx ℕ (List ℕ) ℕ
s1 = record s0 { num_signatures = 1; md = 20; signature_data = some (bytes "ab"); pkey = some 1 }

abbrev s3 : SignCtx ℕ (List ℕ) ℕ
s3 = record s1 { control_started = true }

abbrev s4 : SignCtx ℕ (List ℕ) ℕ
s4 = record s3 { data_started = true; control_verified = true; data_verified = true }

run : Run toy [] s0 s4
unfolding call
run =
    next s3 s4 (part end_part (bytes "ab")) 0
      (next s1 s3 (file info) 1
        (next s1 s1 (part boundary []) 0 (next s0 s1 (file signature) 0 begin refl) refl) refl)
      refl

verified-Signed_example : Signed toy [] (pos 3) (Run toy [] s0)
unfolding verifies sign_init toy
verified-Signed_example = verified-Signed toy [] sign_verify none_known (pos 3) s4 refl run refl

call-Later_example : Later toy false [] s3 s4
unfolding call
call-Later_example = call-Later toy false [] s3 s4 (part end_part (bytes "ab")) (pos 0) refl refl

abbrev in_control : SignCtx ℕ (List ℕ) ℕ
in_control = record s3 {
  action = sign_verify_identity;
  has_data_checksum = true;
  identity = record { data_bytes = bytes "ab"; kind = 2 };
}
