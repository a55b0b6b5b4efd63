-- ===== src/Archive/Layout.antt =====
-- apk-tools/src/archive.c: the fields of a record lie one behind the other.
use arianna_method_anchor_pr.Prelude.{
  ℕ, zero, suc, ◌+◌, ◌≡◌, ◌∙◌, refl, ap, sym, List, [], ◌∷◌, ◌++◌, length, take, drop, get_or,
}
use arianna_method_anchor_pr.Archive.{TarHeader, header_of, laid_out, bytes_of}
use arianna_method_anchor_pr.Archive.Skips.{drop-drop}

take-append : (x r : List ℕ) → take (length x) (x ++ r) ≡ x
take-append [] r = refl
take-append (c ∷ x) r = rw (take-append x r) refl

drop-append : (x r : List ℕ) → drop (length x) (x ++ r) ≡ r
drop-append [] r = refl
drop-append (c ∷ x) r = drop-append x r

-- A field of `n` bytes at `i`, and what lies behind it.
field_step :
    (b x r : List ℕ) (i n : ℕ)
    → drop i b ≡ x ++ r
    → length x ≡ n
    → (drop (i + n) b ≡ r) × (take n (drop i b) ≡ x)
field_step b x r i n e l = rw (← l) (
  sym (drop-drop (length x) i b) ∙ ap (drop (length x)) e ∙ drop-append x r,
  ap (take (length x)) e ∙ take-append x r,
)

get_or-drop : (i : ℕ) (b : List ℕ) (c : ℕ) (r : List ℕ) → drop i b ≡ c ∷ r → get_or b i 0 ≡ c
get_or-drop zero [] c r e = cc
get_or-drop zero (x ∷ b) c r e = cc
get_or-drop (suc i) [] c r e = cc
get_or-drop (suc i) (x ∷ b) c r e = get_or-drop i b c r e

-- Each field has the length that `struct tar_header` gives it.
abbrev pub IsLaidOut : TarHeader → Type 0
IsLaidOut h =
    (length h.name ≡ 100)
    × (length h.mode ≡ 8)
    × (length h.uid ≡ 8)
    × (length h.gid ≡ 8)
    × (length h.size ≡ 12)
    × (length h.mtime ≡ 12)
    × (length h.chksum ≡ 8)
    × (length h.linkname ≡ 100)
    × (length h.magic ≡ 8)
    × (length h.uname ≡ 32)
    × (length h.gname ≡ 32)
    × (length h.devmajor ≡ 8)
    × (length h.devminor ≡ 8)
    × (length h.prefix ≡ 155)
    × (length h.padding ≡ 12)

-- What lies behind the magic, and behind the owner's name.
abbrev pub behind_magic : TarHeader → List ℕ
behind_magic h = laid_out (h.uname ∷ h.gname ∷ h.devmajor ∷ h.devminor ∷ h.prefix ∷ h.padding ∷ [])

abbrev pub behind_uname : TarHeader → List ℕ
behind_uname h = laid_out (h.gname ∷ h.devmajor ∷ h.devminor ∷ h.prefix ∷ h.padding ∷ [])

-- Where the texts of the owner begin.
pub owner_at :
    (h : TarHeader)
    → IsLaidOut h
    → (drop 265 (bytes_of h) ≡ behind_magic h)
      × (drop 297 (bytes_of h) ≡ behind_uname h)
      × (header_of (bytes_of h) ≡ h)
owner_at h (l0, l1, l2, l3, l4, l5, l6, l8, l9, l10, l11, l12, l13, l14, l15) =
    let b = bytes_of h in
    let (s1, f0) = field_step b h.name _ 0 100 refl l0 in
    let (s2, f1) = field_step b h.mode _ 100 8 s1 l1 in
    let (s3, f2) = field_step b h.uid _ 108 8 s2 l2 in
    let (s4, f3) = field_step b h.gid _ 116 8 s3 l3 in
    let (s5, f4) = field_step b h.size _ 124 12 s4 l4 in
    let (s6, f5) = field_step b h.mtime _ 136 12 s5 l5 in
    let (s7, f6) = field_step b h.chksum _ 148 8 s6 l6 in
    let t = get_or-drop 156 b h.typeflag _ s7 in
    let (s8, f7) = field_step b (h.typeflag ∷ []) _ 156 1 s7 refl in
    let (s9, f8) = field_step b h.linkname _ 157 100 s8 l8 in
    let (s10, f9) = field_step b h.magic _ 257 8 s9 l9 in
    let (s11, f10) = field_step b h.uname _ 265 32 s10 l10 in
    let (s12, f11) = field_step b h.gname _ 297 32 s11 l11 in
    let (s13, f12) = field_step b h.devmajor _ 329 8 s12 l12 in
    let (s14, f13) = field_step b h.devminor _ 337 8 s13 l13 in
    let (s15, f14) = field_step b h.prefix _ 345 155 s14 l14 in
    let (s16, f15) = field_step b h.padding [] 500 12 s15 l15 in
    (s10, s11, rw (f0, f1, f2, f3, f4, f5, f6, t, f8, f9, f10, f11, f12, f13, f14, f15) refl)
