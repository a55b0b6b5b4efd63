-- ===== src/Sign/Stages.antt =====
-- apk-tools/src/package.c: the order of the signature, control and data parts.
use arianna_method_anchor_pr.Prelude.{
  ℕ, suc, ◌+◌, ◌≡◌, refl, Bool, true, not, ◌||◌, Option, none, some, List, [], ◌∷◌, ℤ, pos, int_eq,
  arith, Bool-cases, Option-cases, inl, inr, bytes, length, drop,
}
use arianna_method_anchor_pr.Blob.Slices.{split, compare, for_each_segment}
use arianna_method_anchor_pr.Blob.Hex.{Access, ok, fault}
use arianna_method_anchor_pr.Sign.{
  Evp, SignCtx, Entry, Mpart, process_file, take_signature, load_key, read_hash, field,
  pkginfo_line, info_line,
}
use arianna_method_anchor_pr.Sign.Step.{
  read_pkginfo, verify_tar, mpart_cb, block_end, check_data, check_control, check_signature,
  check_identity, mark_verified, lines_of, update_digest, reset_digest,
}
use arianna_method_anchor_pr.Blob.Segments.{Safe, each_segment-keeps}
use arianna_method_anchor_pr.Sign.Run.{Call, file, tar, part, call, of_ok, of_done}

module _ {Md Ctx Key : Type 0} (evp : Evp Md Ctx Key) (untrusted : Bool) (stack : List ℕ) where
  -- Flags that only rise, where the data part never comes before the control part.
  abbrev pub implies : Bool → Bool → Bool
  implies p q = not p || q

  implies_self : (p : Bool) → implies p p ≡ true
  implies_self p = ground arith

  abbrev pub Later : SignCtx Md Ctx Key → SignCtx Md Ctx Key → Type 0
  Later c c' =
      (implies c.control_started c'.control_started ≡ true)
      × (implies c.data_started c'.data_started ≡ true)
      × (implies c.control_verified c'.control_verified ≡ true)
      × (implies c.data_verified c'.data_verified ≡ true)
      × (implies c'.data_started c'.control_started ≡ true)

  same-Later :
      (c : SignCtx Md Ctx Key) → implies c.data_started c.control_started ≡ true → Later c c
  same-Later c h = (
    implies_self c.control_started,
    implies_self c.data_started,
    implies_self c.control_verified,
    implies_self c.data_verified,
    h,
  )

  load_key-Later :
      (c₀ c : SignCtx Md Ctx Key) (e : Entry) (k : Option (Option Key))
      → Later c₀ c
      → Later c₀ (load_key evp untrusted stack c e k)
  unfolding load_key
  load_key-Later c₀ c e none h = h
  load_key-Later c₀ c e (some none) h = h
  load_key-Later c₀ c e (some (some k)) h = h

  take_signature-Later :
      (c₀ c : SignCtx Md Ctx Key) (e : Entry)
      → Later c₀ c
      → Later c₀ (take_signature evp untrusted stack c e)
  unfolding take_signature
  take_signature-Later c₀ c e h =
      let k = load_key-Later c₀ c e (evp.open_key c.keys_fd (drop 10 e.name)) h in ground arith

  implies-true : (p : Bool) → implies p true ≡ true
  implies-true p = ground arith

  started-Later :
      (c₀ c : SignCtx Md Ctx Key)
      → Later c₀ c
      → Later c₀ (record c { data_started = true; control_started = true })
  started-Later c₀ c (_, _, v, d, _) =
      (implies-true c₀.control_started, implies-true c₀.data_started, v, d, refl)

  control-Later :
      (c₀ c : SignCtx Md Ctx Key) → Later c₀ c → Later c₀ (record c { control_started = true })
  control-Later c₀ c (_, s, v, d, _) =
      (implies-true c₀.control_started, s, v, d, implies-true c.data_started)

  process_file-Later :
      (c₀ c : SignCtx Md Ctx Key) (e : Entry)
      → Later c₀ c
      → Later c₀ (process_file evp untrusted stack c e).1
  unfolding process_file
  process_file-Later c₀ c e h =
      let a = started-Later c₀ c h in
      let b = control-Later c₀ c h in
      let k = take_signature-Later c₀ (record c { num_signatures = c.num_signatures + 1 }) e h in
      ground arith

  check_data-Later :
      (c₀ c : SignCtx Md Ctx Key) → Later c₀ c → Later c₀ (check_data evp untrusted stack c).1
  unfolding check_data
  check_data-Later c₀ c (a, b, v, d, o) = let t = implies-true c₀.data_verified in ground arith

  mark_verified-Later :
      (c₀ c : SignCtx Md Ctx Key) (p : Mpart)
      → Later c₀ c
      → Later c₀ (mark_verified evp untrusted stack c p)
  mark_verified-Later c₀ c p (a, b, v, d, o) =
      let t = implies-true c₀.control_verified in
      let t' = implies-true c₀.data_verified in ground arith

  check_signature-Later :
      (c₀ c : SignCtx Md Ctx Key) (p : Mpart)
      → Later c₀ c
      → Later c₀ (check_signature evp untrusted stack c p).1
  unfolding check_signature reset_digest
  check_signature-Later c₀ c p h = let m = mark_verified-Later c₀ c p h in ground arith

  check_identity-Later :
      (c₀ c : SignCtx Md Ctx Key) (p : Mpart)
      → Later c₀ c
      → Later c₀ (check_identity evp untrusted stack c p).1
  unfolding check_identity reset_digest
  check_identity-Later c₀ c p h = let m = mark_verified-Later c₀ c p h in ground arith

  check_control-Later :
      (c₀ c : SignCtx Md Ctx Key) (p : Mpart)
      → Later c₀ c
      → Later c₀ (check_control evp untrusted stack c p).1
  unfolding check_control reset_digest
  check_control-Later c₀ c p h =
      let s = check_signature-Later c₀ c p h in
      let i = check_identity-Later c₀ c p h in ground arith

  block_end-Later :
      (c₀ c : SignCtx Md Ctx Key) (p : Mpart) (s : List ℕ)
      → c.control_started ≡ true
      → Later c₀ c
      → Later c₀ (block_end evp untrusted stack c p s).1
  unfolding block_end update_digest
  block_end-Later c₀ c p s h (a, b, v, d, o) =
      let c₂ = record c { data_started = true; mdctx = evp.update c.mdctx s } in
      let l : Later c₀ c₂ = (a, implies-true c₀.data_started, v, d, rw h refl) in
      let x = check_data-Later c₀ c₂ l in let y = check_control-Later c₀ c₂ p l in ground arith

  mpart_cb-Later :
      (c₀ c : SignCtx Md Ctx Key) (p : Mpart) (s : List ℕ)
      → Later c₀ c
      → Later c₀ (mpart_cb evp untrusted stack c p s).1
  unfolding mpart_cb update_digest reset_digest
  mpart_cb-Later c₀ c p s h = elim (Bool-cases c.control_started) [
    | inl e ↦ let b = block_end-Later c₀ c p s e h in ground arith
    | inr e ↦ ground arith
  ]

  pkginfo_line-Later :
      (c₀ c : SignCtx Md Ctx Key) (s : List ℕ)
      → Later c₀ c
      → Safe (Later c₀) (pkginfo_line evp untrusted stack c s)
  unfolding pkginfo_line field read_hash
  pkginfo_line-Later c₀ c [] h = h
  pkginfo_line-Later c₀ c (x ∷ s) h = elim (Option-cases (split (x ∷ s) b' ' (bytes "= "))) [
    | inl e ↦ ground arith
    | inr ((l, r), e) ↦ ground arith
  ]

  info_line-Later :
      (c₀ : SignCtx Md Ctx Key) (a : Access (SignCtx Md Ctx Key)) (s : List ℕ)
      → Safe (Later c₀) a
      → Safe (Later c₀) (info_line evp untrusted stack a s).1
  unfolding info_line
  info_line-Later c₀ (ok c) s h = pkginfo_line-Later c₀ c s h
  info_line-Later c₀ fault s h = tt

  verify_tar-Later :
      (c₀ c : SignCtx Md Ctx Key) (e : Entry)
      → Later c₀ c
      → Safe (Later c₀) (verify_tar evp untrusted stack c e)
  unfolding verify_tar read_pkginfo for_each_segment
  verify_tar-Later c₀ c e h =
      let (r, c') = process_file evp untrusted stack c e in
      let p = process_file-Later c₀ c e h in
      let t = lines_of e.contents in
      let q =
        each_segment-keeps (Safe (Later c₀)) (info_line evp untrusted stack) b'\n' []
          (info_line-Later c₀) (suc (length t)) t (ok c') p in
      elim (Bool-cases (int_eq r (pos 0))) [
        | inl e₀ ↦ rw e₀ p
        | inr e₀ ↦ rw e₀ (elim (Bool-cases (int_eq (compare e.name (bytes ".PKGINFO")) (pos 0))) [
          | inl e₁ ↦ rw e₁ q
          | inr e₁ ↦ rw e₁ p
        ])
      ]

  -- No call, whether it fails or not, takes back that the control or the data part has started or
  -- was verified, and the data part never starts before the control part.
  pub call-Later :
      (c c' : SignCtx Md Ctx Key) (k : Call) (r : ℤ)
      → implies c.data_started c.control_started ≡ true
      → call evp stack untrusted c k ≡ ok (r, c')
      → Later c c'
  unfolding call
  call-Later c c' (file e) r h q =
      of_ok (Later c) (process_file evp untrusted stack c e) c' r
        (process_file-Later c c e (same-Later c h)) q
  call-Later c c' (tar e) r h q =
      of_done (Later c) (verify_tar evp untrusted stack c e) c' r
        (verify_tar-Later c c e (same-Later c h)) q
  call-Later c c' (part p s) r h q =
      of_ok (Later c) (mpart_cb evp untrusted stack c p s) c' r
        (mpart_cb-Later c c p s (same-Later c h)) q
