-- ===== src/Package/Index.antt =====
-- apk-tools/src/package.c: the entry of a package in an index, the lines of `.PKGINFO`, and the
-- comparison of packages.
use arianna_method_anchor_pr.Prelude.{
  ℕ, Bool, true, false, Option, none, some, List, [], ◌∷◌, ◌==◌, if◌then◌else◌, length, bytes, ℤ,
  pos, negsuc, int_eq, is_negative,
}
use arianna_method_anchor_pr.Version.Compare.{compare_strings, equal}
use arianna_method_anchor_pr.Blob.Slices.{c_string, split, compare}
use arianna_method_anchor_pr.Blob.Cursor.{Cursor, buffer, push_blob, pushed}
use arianna_method_anchor_pr.Blob.Hex.{Access, ok, fault}
use arianna_method_anchor_pr.Blob.Number.{push_uint}
use arianna_method_anchor_pr.Blob.Checksum.{push_csum}
use arianna_method_anchor_pr.Package.Dependency.{Dependency, deps_write, version_text}
use arianna_method_anchor_pr.Package.Info.{Package, Reading, add_info, dropped}
use arianna_method_anchor_pr.Sign.{Evp, SignCtx, pkginfo_line}

-- A label, and the string behind it.
unfoldable pub push_field : Option Cursor → List ℕ → List ℕ → Option Cursor
unfolding push_blob c_string
push_field to label s = push_blob (push_blob to label) s

abbrev pub arch_field : Bool → Option (List ℕ) → Option Cursor → Option Cursor
arch_field true (some a) to = push_field to (bytes "\nA:") (c_string a)
arch_field true none to = to
arch_field false a to = to

-- The buffer with all fields but the dependencies.
unfoldable pub entry_buffer : List ℕ → Bool → Package → Option Cursor
unfolding push_blob push_csum push_uint push_field
entry_buffer buf write_arch p =
    let c = push_csum (push_blob (buffer buf) (bytes "C:")) p.csum in
    let n = push_field c (bytes "\nP:") (version_text p.name) in
    let v = push_field n (bytes "\nV:") (version_text p.version) in
    let a = arch_field write_arch p.arch v in
    let s = push_uint (push_blob a (bytes "\nS:")) p.size 10 in
    let i = push_uint (push_blob s (bytes "\nI:")) p.installed_size 10 in
    let t = push_field i (bytes "\nT:") (version_text p.description) in
    let u = push_field t (bytes "\nU:") (version_text p.url) in
    let l = push_field u (bytes "\nL:") (version_text p.license) in push_blob l (bytes "\n")

-- `apk_pkg_write_index_entry` with its buffer `buf`, and the buffer `tmp` of `apk_deps_write`.
module _ {S : Type 0} (put : S → List ℕ → ℤ × S) (tmp : List ℕ) where
  -- The status of a write of `b`, where anything but the whole of it is -1.
  abbrev pub put_all : S → List ℕ → ℤ × S
  put_all s b =
      let (rc, s') = put s b in (if int_eq rc (pos (length b)) then pos 0 else negsuc 0, s')

  abbrev pub and_then : ℤ × S → (S → ℤ × S) → ℤ × S
  and_then (r, s) f = if is_negative r then (r, s) else f s

  unfoldable pub write_depends : List Dependency → S → ℤ × S
  unfolding deps_write
  write_depends [] s = (pos 0, s)
  write_depends (d ∷ ds) s =
      and_then (put_all s (bytes "D:"))
        (λ s₁. and_then (deps_write put tmp (d ∷ ds) s₁) (λ s₂. put_all s₂ (bytes "\n")))

  write_pushed : List Dependency → Option (List ℕ) → S → ℤ × S
  unfolding write_depends
  write_pushed ds none s = (negsuc 0, s)
  write_pushed ds (some b) s = and_then (put_all s b) (write_depends ds)

  unfoldable pub write_index_entry : List ℕ → Bool → Package → S → ℤ × S
  unfolding entry_buffer pushed write_pushed
  write_index_entry buf write_arch p s =
      write_pushed p.depends (pushed (length buf) (entry_buffer buf write_arch p)) s

-- The field of `.PKGINFO` that a key names.
unfoldable pub field_of : List (List ℕ × ℕ) → List ℕ → Option ℕ
unfolding compare
field_of [] l = none
field_of ((key, f) ∷ fs) l =
    let rest = field_of fs l in if int_eq (compare key l) (pos 0) then some f else rest

abbrev pub pkginfo_fields : List (List ℕ × ℕ)
pkginfo_fields =
    (bytes "pkgname", b'P')
    ∷ (bytes "pkgver", b'V')
    ∷ (bytes "pkgdesc", b'T')
    ∷ (bytes "url", b'U')
    ∷ (bytes "size", b'I')
    ∷ (bytes "license", b'L')
    ∷ (bytes "arch", b'A')
    ∷ (bytes "depend", b'D')
    ∷ []

module _ {Md Ctx Key : Type 0} (evp : Evp Md Ctx Key) (untrusted : Bool) (stack : List ℕ) where
  abbrev pub ReadInfo : Type 0
  ReadInfo = Reading × SignCtx Md Ctx Key

  abbrev pub with_reading : SignCtx Md Ctx Key → Access Reading → Access ReadInfo
  with_reading c (ok r) = ok (r, c)
  with_reading c fault = fault

  abbrev pub with_ctx : Reading → Access (SignCtx Md Ctx Key) → Access ReadInfo
  with_ctx r (ok c) = ok (r, c)
  with_ctx r fault = fault

  -- A key that the table does not have is left to the signature context.
  info_field : ReadInfo → List ℕ → List ℕ → Option ℕ → Access ReadInfo
  unfolding add_info pkginfo_line
  info_field (r, c) line value (some f) = with_reading c (dropped (add_info r f value))
  info_field (r, c) line value none = with_ctx r (pkginfo_line evp untrusted stack c line)

  info_pair : ReadInfo → List ℕ → Option (List ℕ × List ℕ) → Access ReadInfo
  unfolding info_field field_of
  info_pair ri line none = ok ri
  info_pair ri line (some (l, r)) = info_field ri line r (field_of pkginfo_fields l)

  -- `read_info_line`, whose status is 0.
  unfoldable pub read_info_line : ReadInfo → List ℕ → Access ReadInfo
  unfolding info_pair split
  read_info_line ri [] = ok ri
  read_info_line ri (c ∷ s) =
      if c == b'#' then ok ri else info_pair ri (c ∷ s) (split (c ∷ s) b' ' (bytes "= "))

-- `apk_pkg_version_compare`, where both have a version.
unfoldable pub version_compare : List ℕ → List ℕ → ℕ
unfolding compare_strings
version_compare a b = compare_strings (c_string a) (c_string b)

-- `apk_dep_from_pkg`
unfoldable pub dep_from_pkg : List ℕ → Package → Dependency
dep_from_pkg name p = record { name = name; mask = equal; version = p.version }
