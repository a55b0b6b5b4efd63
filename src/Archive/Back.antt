-- ===== src/Archive/Back.antt =====
-- apk-tools/src/archive.c: a record is read as it was written.
use arianna_method_anchor_pr.Prelude.{
  ℕ, zero, suc, ◌-◌, ◌%◌, ◌^◌, ◌≤◌, ◌<◌, ◌≡◌, refl, Bool, none, List, [], ◌∷◌, length, take,
  replicate, pos, arith, length-append, length-take, length-replicate,
}
use arianna_method_anchor_pr.Archive.{TarHeader, put_octal}
use arianna_method_anchor_pr.Archive.Info.{FileInfo, regular, IdCache, entry_of, by_typeflag}
use arianna_method_anchor_pr.Archive.Octal.{length-octal_loop}
use arianna_method_anchor_pr.Archive.Layout.{IsLaidOut}
use arianna_method_anchor_pr.Archive.Write.{
  TarEntry, put_text, or_root, or_empty, or_now, unsummed, header_for,
}

pub length-put_text : (n : ℕ) (s : List ℕ) → length (put_text n s) ≡ n
unfolding put_text
length-put_text n s = omega (
  arith,
  length-append (take n s) (replicate (n - length s) 0),
  length-take n s,
  length-replicate {A = ℕ} (n - length s) 0,
)

length-put_octal : (l value : ℕ) → 1 ≤ l → length (put_octal l value) ≡ l
unfolding put_octal
length-put_octal l value h = omega (arith, length-octal_loop (l - 1) value (0 ∷ []))

pub header_for-IsLaidOut : (now : ℕ) (ae : TarEntry) → IsLaidOut (header_for now ae)
unfolding header_for unsummed
header_for-IsLaidOut now ae = (
  length-put_text 100 (or_empty ae.name),
  length-put_octal 8 (ae.perms % 4096) (omega arith),
  length-put_octal 8 ae.uid (omega arith),
  length-put_octal 8 ae.gid (omega arith),
  length-put_octal 12 ae.size (omega arith),
  length-put_octal 12 (or_now now ae.mtime) (omega arith),
  omega (arith, length-append (put_octal 7 _) (b' ' ∷ []), length-put_octal 7 _ (omega arith)),
  refl,
  refl,
  length-put_text 32 (or_root ae.uname),
  length-put_text 32 (or_root ae.gname),
  refl,
  refl,
  refl,
  refl,
)

-- A text without a NUL.
abbrev pub IsText : List ℕ → Type 0
IsText [] = Unit
IsText (c ∷ s) = (0 < c) × IsText s

pub take_all : (n : ℕ) (s : List ℕ) → length s ≤ n → take n s ≡ s
take_all zero [] h = refl
take_all zero (c ∷ s) h = absurd (omega arith)
take_all (suc n) [] h = refl
take_all (suc n) (c ∷ s) h = rw (take_all n s (omega arith)) refl

-- An entry whose texts and numbers have room in the record.
abbrev pub HasRoom : ℕ → TarEntry → Type 0
HasRoom now ae =
    (IsText (or_empty ae.name) × (length (or_empty ae.name) < 100))
    × (IsText (or_root ae.uname) × (length (or_root ae.uname) < 32))
    × (IsText (or_root ae.gname) × (length (or_root ae.gname) < 32))
    × (ae.size < 2 ^ 31)
    × (ae.uid < 8 ^ 7)
    × (ae.gid < 8 ^ 7)
    × (or_now now ae.mtime < 2 ^ 31)

module _ (hash : List ℕ → List ℕ) (idc : IdCache) (soft_checksums : Bool) where
  -- What the parser makes of the record.
  abbrev pub read_header : TarHeader → FileInfo × Bool
  read_header h = by_typeflag hash idc soft_checksums h (entry_of hash idc soft_checksums h none)

  -- The entry is as it was given, a regular file; its checksum is left to the reading of its data.
  abbrev pub IsSame : ℕ → TarEntry → FileInfo × Bool → Type 0
  IsSame now ae (e, hashing) =
      (e.file_type ≡ regular)
      × (e.entry_size ≡ pos ae.size)
      × (e.perms ≡ ae.perms % 4096)
      × (e.modified ≡ pos (or_now now ae.mtime))
      × (e.owner ≡ or_root ae.uname)
      × (e.group ≡ or_root ae.gname)
      × (e.owner_id ≡ idc.resolve_uid (or_root ae.uname) (pos ae.uid))
      × (e.group_id ≡ idc.resolve_gid (or_root ae.gname) (pos ae.gid))
      × (hashing ≡ soft_checksums)
