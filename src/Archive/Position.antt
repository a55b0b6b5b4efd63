-- ===== src/Archive/Position.antt =====
-- apk-tools/src/archive.c: where an entry leaves the stream.
use mathlib.Core.Path.{subst}
use arianna_method_anchor_pr.Prelude.{
  ℕ, ◌-◌, ◌%◌, ◌≡◌, refl, ap, sym, ◌∙◌, Bool, true, false, Option, none, some, List, ◌==◌, drop, ℤ,
  pos, int_eq, is_negative, ◌^◌, ◌<◌, arith, if_either, Bool-cases, inl, inr,
}
use arianna_method_anchor_pr.Blob.Hex.{Access, ok, fault}
use arianna_method_anchor_pr.Archive.{TarHeader, get_octal, Stream, read}
use arianna_method_anchor_pr.Archive.Entry.{Teis, Reader}
use arianna_method_anchor_pr.Archive.Info.{FileInfo, to_size, IdCache, entry_of, by_typeflag}
use arianna_method_anchor_pr.Archive.Parse.{
  is_typed, Tar, start_entry, name_of, call_parser, after_entry, plain_entry, long_entry, tar_entry,
}
use arianna_method_anchor_pr.Archive.Skips.{
  Consumes, Consumes-refl, run_reader-Consumes, padded, skip_position, read_position, skip_shift,
}

pub ok_or_fault {ℓ} : {A : Type ℓ} {x : A} → fault ≡ ok x → ⊥
ok_or_fault {A} {x} e = cc

module _ (hash : List ℕ → List ℕ) (idc : IdCache) (soft_checksums : Bool) where
  by_typeflag_size :
      (h : TarHeader) (e : FileInfo)
      → (by_typeflag hash idc soft_checksums h e).0.entry_size ≡ e.entry_size
  unfolding by_typeflag
  by_typeflag_size h e = ground arith

  module _ {ℓ} {C : Type ℓ} (parser : C → FileInfo → Reader C) where
    abbrev pub TarOf : Type ℓ
    TarOf = Tar hash idc soft_checksums parser

    -- The stream stands behind an entry of `n` bytes and what fills its last record.
    abbrev pub Behind : ℕ → TarOf → ℤ × TarOf → Type 0
    Behind n t (r, t') =
        int_eq r (pos 0) ≡ true → (t'.offset % 512 ≡ 0) × (t'.is.left ≡ drop (padded n) t.is.left)

    after_entry_position :
        (t : TarOf) (e : FileInfo) (name : Option (List ℕ)) (r : ℤ) (c : C) (teis u : Teis)
        → t.offset % 512 ≡ 0
        → u.tar_is ≡ t.is
        → u.bytes_left ≡ to_size e.entry_size
        → to_size e.entry_size < 2 ^ 63
        → Consumes u teis
        → Behind
            (to_size e.entry_size)
            t
            (after_entry hash idc soft_checksums parser t e name (r, c, teis))
    after_entry_position t e name r c teis u a s b small (k, h, m, l) =
        let n = to_size e.entry_size in
        let q : n - teis.bytes_left ≡ k = omega arith in
        let l' : teis.tar_is.left ≡ drop (n - teis.bytes_left) t.is.left = rw (q, ← s) l in
        let d = skip_position t.offset n t.is teis a (omega arith) small l' in
        elim (Bool-cases (int_eq r (pos 0))) [
          | inl z ↦ rw z (λ y. d)
          | inr z ↦ rw z (λ y. absurd (let f : false ≡ true = sym z ∙ y in cc))
        ]

    plain_entry_position :
        (t : TarOf) (h : TarHeader) (e : FileInfo) (hashing : Bool)
        → t.offset % 512 ≡ 0
        → to_size e.entry_size < 2 ^ 63
        → Behind
            (to_size e.entry_size)
            t
            (plain_entry hash idc soft_checksums parser t h (e, hashing))
    unfolding plain_entry call_parser
    plain_entry_position t h e hashing a small =
        let u = start_entry hash idc soft_checksums parser e hashing t.is in
        let v = start_entry hash idc soft_checksums parser e false t.is in
        let o = call_parser hash idc soft_checksums parser t.ctx h (e, hashing) t.is in
        if_either (Behind (to_size e.entry_size) t) (is_typed e.file_type)
          (after_entry hash idc soft_checksums parser t e none o)
          (after_entry hash idc soft_checksums parser t e e.entry_name (pos 0, t.ctx, v))
          (after_entry_position t e none o.0 o.1 o.2 u a refl refl small (
            run_reader-Consumes hash
              (parser t.ctx (record e {
                entry_name = some (name_of hash idc soft_checksums parser h e.entry_name);
              }))
              u))
          (after_entry_position t e e.entry_name (pos 0) t.ctx v v a refl refl small
            (Consumes-refl v))

    -- What an `ok` says.
    pub returned : (o p : ℤ × TarOf) → ◌≡◌ {A = Access (ℤ × TarOf)} (ok o) (ok p) → o ≡ p
    returned o p e = cc

    long_entry_position :
        (t t' : TarOf) (h : TarHeader)
        → t.offset % 512 ≡ 0
        → to_size (get_octal h.size) < 2 ^ 63
        → long_entry hash idc soft_checksums parser t h ≡ ok (pos 0, t')
        → Behind (to_size (get_octal h.size)) t (pos 0, t')
    unfolding long_entry entry_of
    long_entry_position t t' h a small f =
        let n = to_size (get_octal h.size) in
        let e = entry_of hash idc soft_checksums h t.long_name in
        let u =
          start_entry hash idc soft_checksums parser (record e { entry_size = pos 0 }) false
            (read t.is n).2 in
        let q : n ≡ n - 0 = omega arith in
        let d =
          skip_position t.offset n t.is u a (omega arith) small
            (read_position t.is n ∙ ap (λ k. drop k t.is.left) q) in
        let d' =
          subst (λ (o : ℕ × Stream). (o.0 % 512 ≡ 0) × (o.1.left ≡ drop (padded n) t.is.left))
            (sym (skip_shift t.offset n u refl)) d in
        elim (Bool-cases (is_negative (get_octal h.size))) [
          | inl y ↦ absurd (ok_or_fault (rw y at f))
          | inr y ↦
              subst (λ (o : ℤ × TarOf). Behind n t o) (returned _ (pos 0, t') (rw y at f)) (λ z. d')
        ]

    -- `apk_tar_parse` finds the next record where it is: whatever the callback has read of an entry,
    -- if it returns 0, the stream then stands behind as many bytes as `get_octal` reads from the size
    -- field of the entry and what fills its last 512, and `offset` is a multiple of 512, as it was
    -- before. This holds for all records of a size that is not negative, those of long names and of no
    -- file type included.
    pub tar_entry_position :
        (t t' : TarOf) (h : TarHeader)
        → t.offset % 512 ≡ 0
        → to_size (get_octal h.size) < 2 ^ 63
        → tar_entry hash idc soft_checksums parser t h ≡ ok (pos 0, t')
        → (t'.offset % 512 ≡ 0)
          × (t'.is.left ≡ drop (padded (to_size (get_octal h.size))) t.is.left)
    unfolding tar_entry entry_of
    tar_entry_position t t' h a small e =
        let f =
          by_typeflag hash idc soft_checksums h (entry_of hash idc soft_checksums h t.long_name) in
        let size = by_typeflag_size h (entry_of hash idc soft_checksums h t.long_name) in
        elim (Bool-cases (h.typeflag == b'L')) [
          | inl y ↦ long_entry_position t t' h a small (rw y at e) refl
          | inr y ↦
              let same =
                returned (plain_entry hash idc soft_checksums parser t h f) (pos 0, t')
                  (rw y at e) in
              let b =
                subst
                  (λ (n : ℤ).
                    to_size n < 2 ^ 63
                    → Behind (to_size n) t (plain_entry hash idc soft_checksums parser t h f))
                  size (plain_entry_position t h f.0 f.1 a) small in
              subst (λ (o : ℤ × TarOf). Behind (to_size (get_octal h.size)) t o) same b refl
        ]
