-- ===== src/Sign/Checks.antt =====
-- apk-tools/src/package.c: the check at the end of the control part.
use arianna_method_anchor_pr.Prelude.{ℕ, ◌≡◌, ◌↔◌, Bool, true, false, List, pos, arith}
use arianna_method_anchor_pr.Sign.{
  Evp, SignCtx, boundary, verifies, sign_verify_identity, check_trust,
}
use arianna_method_anchor_pr.Sign.Step.{
  mpart_cb, block_end, check_control, check_identity, same_front, over, reset_digest,
}

module _ {Md Ctx Key : Type 0} (evp : Evp Md Ctx Key) (untrusted : Bool) (stack : List ℕ) where
  -- The end of the control part with a recorded hash, in a context that was set up with the
  -- identity of a package: the callback succeeds exactly if the digest of the part begins with the
  -- identity, and exactly then counts the part as verified. It never counts the data as verified,
  -- and what follows is data.
  pub identity_end_iff :
      (c : SignCtx Md Ctx Key) (s : List ℕ)
      → c.action ≡ sign_verify_identity
      → c.control_started ≡ true
      → c.data_started ≡ false
      → c.has_data_checksum ≡ true
      → c.control_verified ≡ false
      → let (d, ctx) = evp.digest_final (evp.update c.mdctx s) in
        let (r, c') = mpart_cb evp untrusted stack c boundary s in
        let same = same_front c.identity.kind (over d stack) c.identity.data_bytes in
        ((r ≡ pos 0) ↔ (same ≡ true))
        × (c'.control_verified ≡ same)
        × (c'.data_verified ≡ c.data_verified)
        × (c'.data_started ≡ true)
  unfolding mpart_cb block_end check_control check_identity check_trust verifies reset_digest
  identity_end_iff c s a h₀ h₁ h₂ h₃ =
      ((λ e. ground arith, λ e. ground arith), ground arith, ground arith, ground arith)
