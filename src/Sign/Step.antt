-- ===== src/Sign/Step.antt =====
-- apk-tools/src/package.c: `apk_sign_ctx_verify_tar` and `apk_sign_ctx_mpart_cb`.
use arianna_method_anchor_pr.Prelude.{
  ℕ, ◌==◌, Bool, true, not, ◌&&◌, ◌||◌, Option, none, some, List, [], ◌++◌, if◌then◌else◌, take,
  drop, length, bytes, ℤ, pos, int_eq, is_negative,
}
use arianna_method_anchor_pr.Blob.Slices.{compare, memcmp, for_each_segment}
use arianna_method_anchor_pr.Blob.Hex.{Access, ok}
use arianna_method_anchor_pr.Sign.{
  Evp, SignCtx, Entry, Mpart, is_end, is_data, enokey, ekeyrejected, ecanceled,
  sign_verify_identity, sign_generate_v1, sign_generate, sign_verify_and_generate, verifies,
  process_file, info_line, check_trust,
}

-- Bytes stored at the front of an array.
abbrev pub over : List ℕ → List ℕ → List ℕ
over d old = d ++ drop (length d) old

-- `memcmp` of the first `n` bytes is 0.
unfoldable pub same_front : ℕ → List ℕ → List ℕ → Bool
unfolding memcmp
same_front n s t = int_eq (memcmp (take n s) (take n t)) (pos 0)

abbrev pub lines_of : Option (List ℕ) → List ℕ
lines_of none = []
lines_of (some s) = s

module _ {Md Ctx Key : Type 0} (evp : Evp Md Ctx Key) (untrusted : Bool) (stack : List ℕ) where
  -- The lines of `.PKGINFO`.
  unfoldable pub read_pkginfo : SignCtx Md Ctx Key → Option (List ℕ) → Access (SignCtx Md Ctx Key)
  unfolding for_each_segment
  read_pkginfo c s =
      (for_each_segment (info_line evp untrusted stack) b'\n' [] (lines_of s) (ok c)).1

  -- `apk_sign_ctx_verify_tar`, which always returns 0.
  unfoldable pub verify_tar : SignCtx Md Ctx Key → Entry → Access (SignCtx Md Ctx Key)
  unfolding process_file read_pkginfo compare
  verify_tar c e =
      let (r, c') = process_file evp untrusted stack c e in
      if int_eq r (pos 0)
      then ok c'
      else if int_eq (compare e.name (bytes ".PKGINFO")) (pos 0)
      then read_pkginfo c' e.contents
      else ok c'

  unfoldable pub reset_digest : SignCtx Md Ctx Key → SignCtx Md Ctx Key
  reset_digest c = record c { mdctx = evp.digest_init c.mdctx c.md }

  unfoldable pub update_digest : SignCtx Md Ctx Key → List ℕ → SignCtx Md Ctx Key
  update_digest c s = record c { mdctx = evp.update (evp.clear_oneshot c.mdctx) s }

  -- The end of the data, whose hash is in the control part.
  unfoldable pub check_data : SignCtx Md Ctx Key → ℤ × SignCtx Md Ctx Key
  unfolding same_front
  check_data c =
      let (d, ctx) = evp.digest_final c.mdctx in
      if evp.ctx_size ctx == 0 || not (same_front (evp.ctx_size ctx) (over d stack) c.data_checksum)
      then (ekeyrejected, record c { mdctx = ctx })
      else if not untrusted && not c.control_verified
      then (enokey, record c { mdctx = ctx; data_verified = true })
      else (pos 0, record c { mdctx = ctx; data_verified = true })

  abbrev pub mark_verified : SignCtx Md Ctx Key → Mpart → SignCtx Md Ctx Key
  mark_verified c part = record c {
    control_verified = true;
    data_verified = if not c.has_data_checksum && is_end part then true else c.data_verified;
  }

  -- The identity is the digest of what has gone by.
  abbrev pub identify : SignCtx Md Ctx Key → SignCtx Md Ctx Key
  identify c =
      let (d, ctx) = evp.digest_final c.mdctx in
      record c {
        mdctx = ctx;
        identity = record {
          data_bytes = over d c.identity.data_bytes;
          kind = evp.ctx_size c.mdctx;
        };
      }

  unfoldable pub check_signature : SignCtx Md Ctx Key → Mpart → ℤ × SignCtx Md Ctx Key
  unfolding reset_digest
  check_signature c part =
      let c' = mark_verified c part in
      if not (int_eq (evp.verify_final c.mdctx c.signature_data c.pkey) (pos 1))
      then (ekeyrejected, c)
      else if c.action == sign_verify_and_generate
      then (pos 0, reset_digest (identify c'))
      else (pos 0, reset_digest c')

  unfoldable pub check_identity : SignCtx Md Ctx Key → Mpart → ℤ × SignCtx Md Ctx Key
  unfolding same_front reset_digest
  check_identity c part =
      let (d, ctx) = evp.digest_final c.mdctx in
      let c' = record c { mdctx = ctx } in
      if not (same_front c.identity.kind (over d stack) c.identity.data_bytes)
      then (ekeyrejected, c')
      else (pos 0, reset_digest (mark_verified c' part))

  -- The `switch` on the action, and what follows it.
  unfoldable pub check_control : SignCtx Md Ctx Key → Mpart → ℤ × SignCtx Md Ctx Key
  unfolding check_trust check_signature check_identity verifies reset_digest
  check_control c part =
      let r = check_trust evp untrusted stack c in
      if is_negative r
      then (r, c)
      else if verifies c.action
      then check_signature c part
      else if c.action == sign_verify_identity
      then check_identity c part
      else if c.action == sign_generate && c.has_data_checksum
      then (ecanceled, identify c)
      else if c.action == sign_generate || c.action == sign_generate_v1
      then (pos 0, reset_digest (identify c))
      else (pos 0, reset_digest c)

  -- The lines from "Grab state" on.
  unfoldable pub block_end : SignCtx Md Ctx Key → Mpart → List ℕ → ℤ × SignCtx Md Ctx Key
  unfolding check_data check_control update_digest
  block_end c part s =
      let end_of_control = not c.data_started in
      let c₁ = record c { data_started = true } in
      let c₂ = record c₁ { mdctx = evp.update c.mdctx s } in
      if not c.has_data_checksum && end_of_control && not (is_end part)
      then (pos 0, update_digest c₁ s)
      else if c.has_data_checksum && not end_of_control
      then check_data c₂
      else check_control c₂ part

  -- `apk_sign_ctx_mpart_cb`
  unfoldable pub mpart_cb : SignCtx Md Ctx Key → Mpart → List ℕ → ℤ × SignCtx Md Ctx Key
  unfolding update_digest reset_digest block_end
  mpart_cb c part s =
      if is_data part || (not (is_end part) && c.data_started)
      then (pos 0, update_digest c s)
      else if c.control_started
      then block_end c part s
      else if is_end part
      then (ekeyrejected, c)
      else (pos 0, reset_digest c)
