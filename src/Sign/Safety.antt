-- ===== src/Sign/Safety.antt =====
-- apk-tools/src/package.c: what the signature context has checked when it reports success.
use arianna_method_anchor_pr.Prelude.{
  ℕ, suc, ◌≡◌, refl, Bool, true, false, not, ◌||◌, Option, none, some, List, [], ◌∷◌, ℤ, pos,
  negsuc, int_eq, is_negative, arith, Bool-cases, Option-cases, inl, inr, length, bytes, drop, ◌+◌,
}
use arianna_method_anchor_pr.Blob.Slices.{split, for_each_segment, compare}
use arianna_method_anchor_pr.Blob.Segments.{Safe, each_segment-keeps}
use arianna_method_anchor_pr.Blob.Hex.{Access, ok, fault}
use arianna_method_anchor_pr.Sign.{
  Evp, SignCtx, Entry, Mpart, verifies, is_some, check_trust, load_key, take_signature,
  process_file, read_hash, field, pkginfo_line, info_line,
}
use arianna_method_anchor_pr.Sign.Step.{
  verify_tar, read_pkginfo, reset_digest, update_digest, check_data, check_signature, check_control,
  block_end, mpart_cb, lines_of,
}

-- `Seen` are the states that the context has been in.
module _ {Md Ctx Key : Type 0} (evp : Evp Md Ctx Key) (stack : List ℕ) (fd : ℤ)
    (Seen : SignCtx Md Ctx Key → Type 0) where
  -- A key that the directory of keys holds.
  abbrev pub Known : Option Key → Type 0
  Known none = Unit
  Known (some k) = (name : List ℕ) × (evp.open_key fd name ≡ some (some k))

  -- In a state that was seen, such a key has verified the archive's signature of what had gone by
  -- together with a last block.
  abbrev pub Signed : Type 0
  Signed =
      (c : SignCtx Md Ctx Key) × Seen c
      × (s : List ℕ) × (k : Key) × (c.pkey ≡ some k)
      × Known (some k)
      × (evp.verify_final (evp.update c.mdctx s) c.signature_data (some k) ≡ pos 1)

  abbrev pub Evidence : Bool → Type 0
  Evidence false = Unit
  Evidence true = Signed

  -- What holds as long as no call has failed: the data is verified only with the control part, and
  -- the control part only by a signature.
  abbrev pub IsSafe : ℕ → SignCtx Md Ctx Key → Type 0
  IsSafe action c =
      (c.keys_fd ≡ fd)
      × (c.action ≡ action)
      × Known c.pkey
      × Evidence c.control_verified
      × ((not c.data_verified || c.control_verified) ≡ true)

  load_key-IsSafe :
      (action : ℕ) (c : SignCtx Md Ctx Key) (e : Entry) (name : List ℕ)
      → IsSafe action c
      → IsSafe action (load_key evp false stack c e (evp.open_key c.keys_fd name))
  unfolding load_key
  load_key-IsSafe action c e name (f, a, k, v, i) =
      elim (Option-cases (evp.open_key c.keys_fd name)) [
        | inl e ↦ rw (e, load_key) (f, a, k, v, i)
        | inr (none, e) ↦ rw (e, load_key) (f, a, tt, v, i)
        | inr (some key, e) ↦ rw (e, load_key) (f, a, (name, rw f at e), v, i)
      ]

  take_signature-IsSafe :
      (action : ℕ) (c : SignCtx Md Ctx Key) (e : Entry)
      → IsSafe action c
      → IsSafe action (take_signature evp false stack c e)
  unfolding take_signature
  take_signature-IsSafe action c e h = ground (arith, load_key-IsSafe action c e (drop 10 e.name) h)

  pub process_file-IsSafe :
      (action : ℕ) (c : SignCtx Md Ctx Key) (e : Entry)
      → IsSafe action c
      → IsSafe action (process_file evp false stack c e).1
  unfolding process_file
  process_file-IsSafe action c e h =
      let k =
        take_signature-IsSafe action (record c { num_signatures = c.num_signatures + 1 }) e h in
      ground arith

  read_hash-IsSafe :
      (action : ℕ) (c : SignCtx Md Ctx Key) (r : List ℕ)
      → IsSafe action c
      → Safe (IsSafe action) (read_hash evp false stack c r)
  unfolding read_hash
  read_hash-IsSafe action c r h = ground arith

  pkginfo_line-IsSafe :
      (action : ℕ) (c : SignCtx Md Ctx Key) (s : List ℕ)
      → IsSafe action c
      → Safe (IsSafe action) (pkginfo_line evp false stack c s)
  unfolding pkginfo_line field
  pkginfo_line-IsSafe action c [] h = h
  pkginfo_line-IsSafe action c (x ∷ s) h = elim (Option-cases (split (x ∷ s) b' ' (bytes "= "))) [
    | inl e ↦ ground arith
    | inr ((l, r), e) ↦ ground (arith, read_hash-IsSafe action c r h)
  ]

  info_line-IsSafe :
      (action : ℕ) (a : Access (SignCtx Md Ctx Key)) (s : List ℕ)
      → Safe (IsSafe action) a
      → Safe (IsSafe action) (info_line evp false stack a s).1
  unfolding info_line
  info_line-IsSafe action (ok c) s h = pkginfo_line-IsSafe action c s h
  info_line-IsSafe action fault s h = tt

  read_pkginfo-IsSafe :
      (action : ℕ) (c : SignCtx Md Ctx Key) (s : Option (List ℕ))
      → IsSafe action c
      → Safe (IsSafe action) (read_pkginfo evp false stack c s)
  unfolding read_pkginfo for_each_segment
  read_pkginfo-IsSafe action c s h =
      each_segment-keeps (Safe (IsSafe action)) (info_line evp false stack) b'\n' []
        (info_line-IsSafe action) (suc (length (lines_of s))) (lines_of s) (ok c) h

  pub verify_tar-IsSafe :
      (action : ℕ) (c : SignCtx Md Ctx Key) (e : Entry)
      → IsSafe action c
      → Safe (IsSafe action) (verify_tar evp false stack c e)
  unfolding verify_tar
  verify_tar-IsSafe action c e h =
      let (r, c') = process_file evp false stack c e in
      let p = process_file-IsSafe action c e h in
      let q = read_pkginfo-IsSafe action c' e.contents p in
      elim (Bool-cases (int_eq r (pos 0))) [
        | inl e₀ ↦ rw e₀ p
        | inr e₀ ↦ rw e₀ (elim (Bool-cases (int_eq (compare e.name (bytes ".PKGINFO")) (pos 0))) [
          | inl e₁ ↦ rw e₁ q
          | inr e₁ ↦ rw e₁ p
        ])
      ]

  check_data-IsSafe :
      (action : ℕ) (c : SignCtx Md Ctx Key)
      → IsSafe action c
      → is_negative (check_data evp false stack c).0 ≡ false
      → IsSafe action (check_data evp false stack c).1
  unfolding check_data
  check_data-IsSafe action c h e = ground arith

  int_eq_sound : (a b : ℤ) → int_eq a b ≡ true → a ≡ b
  int_eq_sound (pos a) (pos b) e = ground arith
  int_eq_sound (pos a) (negsuc b) e = ground arith
  int_eq_sound (negsuc a) (pos b) e = ground arith
  int_eq_sound (negsuc a) (negsuc b) e = ground arith

  check_trust_fails :
      (c : SignCtx Md Ctx Key)
      → verifies c.action ≡ true
      → c.pkey ≡ none
      → is_negative (check_trust evp false stack c) ≡ true
  unfolding check_trust is_some
  check_trust_fails c v n = rw (v, n, is_some) refl

  -- The state in which a block that ends a part is checked.
  abbrev at_end : SignCtx Md Ctx Key → List ℕ → SignCtx Md Ctx Key
  at_end c s = record c { data_started = true; mdctx = evp.update c.mdctx s }

  -- Only a signature of the key lets the check succeed.
  check_signature-IsSafe :
      (action : ℕ) (c : SignCtx Md Ctx Key) (s : List ℕ) (part : Mpart) (k : Key)
      → Seen c
      → c.pkey ≡ some k
      → IsSafe action c
      → is_negative (check_signature evp false stack (at_end c s) part).0 ≡ false
      → IsSafe action (check_signature evp false stack (at_end c s) part).1
  unfolding check_signature reset_digest
  check_signature-IsSafe action c s part k seen e₀ (f, a, known, v, i) e =
      let m = evp.update c.mdctx s in
      elim (Bool-cases (int_eq (evp.verify_final m c.signature_data c.pkey) (pos 1))) [
        | inl e₁ ↦
            let good = int_eq_sound (evp.verify_final m c.signature_data c.pkey) (pos 1) e₁ in
            let ev : Signed = (c, seen, s, k, e₀, rw e₀ at known, rw e₀ at good) in ground arith
        | inr e₁ ↦ absurd (ground arith)
      ]

  check_control-IsSafe :
      (action : ℕ) (c : SignCtx Md Ctx Key) (s : List ℕ) (part : Mpart)
      → verifies c.action ≡ true
      → Seen c
      → IsSafe action c
      → is_negative (check_control evp false stack (at_end c s) part).0 ≡ false
      → IsSafe action (check_control evp false stack (at_end c s) part).1
  unfolding check_control
  check_control-IsSafe action c s part v seen h e = elim (Option-cases c.pkey) [
    | inl n ↦ absurd (ground (arith, check_trust_fails (at_end c s) v n))
    | inr (k, q) ↦ ground (arith, check_signature-IsSafe action c s part k seen q h)
  ]

  block_end-IsSafe :
      (action : ℕ) (c : SignCtx Md Ctx Key) (part : Mpart) (s : List ℕ)
      → verifies action ≡ true
      → Seen c
      → IsSafe action c
      → is_negative (block_end evp false stack c part s).0 ≡ false
      → IsSafe action (block_end evp false stack c part s).1
  unfolding block_end update_digest
  block_end-IsSafe action c part s v seen h e = ground (
    arith,
    check_data-IsSafe action (at_end c s) h,
    check_control-IsSafe action c s part (rw h.1 v) seen h,
  )

  pub mpart_cb-IsSafe :
      (action : ℕ) (c : SignCtx Md Ctx Key) (part : Mpart) (s : List ℕ)
      → verifies action ≡ true
      → Seen c
      → IsSafe action c
      → is_negative (mpart_cb evp false stack c part s).0 ≡ false
      → IsSafe action (mpart_cb evp false stack c part s).1
  unfolding mpart_cb update_digest reset_digest
  mpart_cb-IsSafe action c part s v seen h e =
      ground (arith, block_end-IsSafe action c part s v seen h)
