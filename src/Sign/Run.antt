-- ===== src/Sign/Run.antt =====
-- apk-tools/src/package.c: the signature context over a whole archive, whose files and parts go by
-- in any order.
use arianna_method_anchor_pr.Prelude.{ℕ, ◌≡◌, refl, ap, Bool, true, false, List, ℤ, pos, arith}
use arianna_method_anchor_pr.Blob.Hex.{Access, ok, fault}
use arianna_method_anchor_pr.Blob.Checksum.{Checksum}
use arianna_method_anchor_pr.Sign.{Evp, SignCtx, Entry, Mpart, verifies, sign_init, process_file}
use arianna_method_anchor_pr.Sign.Step.{verify_tar, mpart_cb}
use arianna_method_anchor_pr.Blob.Segments.{Safe}
use arianna_method_anchor_pr.Sign.Safety.{
  Signed, IsSafe, process_file-IsSafe, verify_tar-IsSafe, mpart_cb-IsSafe,
}

-- A call of `apk_sign_ctx_process_file`, `apk_sign_ctx_verify_tar` or `apk_sign_ctx_mpart_cb`.
pub data Call : Type 0 where
  file : Entry → Call
  tar : Entry → Call
  part : Mpart → List ℕ → Call

abbrev pub done {ℓ} : {A : Type ℓ} → Access A → Access (ℤ × A)
done (ok a) = ok (pos 0, a)
done fault = fault

is_of_ok : {A : Type 0} (x y : A) → ok x ≡ ok y → x ≡ y
is_of_ok x y e = cc

module _ {A : Type 0} where
  pub of_ok {κ} : (P : A → Type κ) (x : ℤ × A) (a : A) (r : ℤ) → P x.1 → ok x ≡ ok (r, a) → P a
  of_ok P x a r h e = rw (← ap (λ (y : ℤ × A). y.1) (is_of_ok x (r, a) e)) h

  pub of_done {κ} :
      (P : A → Type κ) (x : Access A) (a : A) (r : ℤ) → Safe P x → done x ≡ ok (r, a) → P a
  of_done P (ok b) a r h e = of_ok P (pos 0, b) a r h e
  of_done P fault a r h e = absurd cc

module _ {Md Ctx Key : Type 0} (evp : Evp Md Ctx Key) (stack : List ℕ) where
  unfoldable pub call : Bool → SignCtx Md Ctx Key → Call → Access (ℤ × SignCtx Md Ctx Key)
  unfolding process_file verify_tar mpart_cb
  call untrusted c (file e) = ok (process_file evp untrusted stack c e)
  call untrusted c (tar e) = done (verify_tar evp untrusted stack c e)
  call untrusted c (part p s) = ok (mpart_cb evp untrusted stack c p s)

  -- What calls without an error lead to, where ALLOW_UNTRUSTED is not set.
  pub data Run (start : SignCtx Md Ctx Key) : SignCtx Md Ctx Key → Type 0 where
    begin : Run start start
    next :
        (c c' : SignCtx Md Ctx Key) (k : Call) (r : ℕ)
        → Run start c
        → call false c k ≡ ok (pos r, c')
        → Run start c'

  call-IsSafe :
      (fd : ℤ) (Seen : SignCtx Md Ctx Key → Type 0) (action : ℕ) (c c' : SignCtx Md Ctx Key)
      (k : Call) (r : ℕ)
      → verifies action ≡ true
      → Seen c
      → IsSafe evp stack fd Seen action c
      → call false c k ≡ ok (pos r, c')
      → IsSafe evp stack fd Seen action c'
  unfolding call
  call-IsSafe fd Seen action c c' (file e) r v seen h q =
      of_ok (IsSafe evp stack fd Seen action) (process_file evp false stack c e) c' (pos r)
        (process_file-IsSafe evp stack fd Seen action c e h) q
  call-IsSafe fd Seen action c c' (tar e) r v seen h q =
      of_done (IsSafe evp stack fd Seen action) (verify_tar evp false stack c e) c' (pos r)
        (verify_tar-IsSafe evp stack fd Seen action c e h) q
  call-IsSafe fd Seen action c c' (part p s) r v seen h q =
      let m = is_of_ok (mpart_cb evp false stack c p s) (pos r, c') q in
      of_ok (IsSafe evp stack fd Seen action) (mpart_cb evp false stack c p s) c' (pos r)
        (mpart_cb-IsSafe evp stack fd Seen action c p s v seen h (rw (ap (λ x. x.0) m) refl)) q

  Run-IsSafe :
      (fd : ℤ) (action : ℕ) (start c : SignCtx Md Ctx Key)
      → verifies action ≡ true
      → IsSafe evp stack fd (Run start) action start
      → Run start c
      → IsSafe evp stack fd (Run start) action c
  Run-IsSafe fd action start c v h begin = h
  Run-IsSafe fd action start c v h (next b _ k r run q) =
      call-IsSafe fd (Run start) action b c k r v run (Run-IsSafe fd action start b v h run) q

  sign_init-IsSafe :
      (action : ℕ) (identity : Checksum) (fd : ℤ) (Seen : SignCtx Md Ctx Key → Type 0)
      → verifies action ≡ true
      → IsSafe evp stack fd Seen action (sign_init evp false stack action identity fd)
  unfolding sign_init
  sign_init-IsSafe action identity fd Seen v = ground arith

  -- Where ALLOW_UNTRUSTED is not set and the context was set up with an action that needs a
  -- signature: after any calls in any order of which none failed, the data counts as verified only
  -- if, at some point of these calls, a key from the directory of keys has verified the signature
  -- that the context held of what it had hashed together with one more block.
  pub verified-Signed :
      (action : ℕ) (identity : Checksum) (fd : ℤ) (c : SignCtx Md Ctx Key)
      → verifies action ≡ true
      → Run (sign_init evp false stack action identity fd) c
      → c.data_verified ≡ true
      → Signed evp stack fd (Run (sign_init evp false stack action identity fd))
  verified-Signed action identity fd c v run d =
      let start = sign_init evp false stack action identity fd in
      let (_, _, _, evidence, i) =
        Run-IsSafe fd action start c v (sign_init-IsSafe action identity fd (Run start) v) run in
      let signed : c.control_verified ≡ true = ground arith in rw signed at evidence
