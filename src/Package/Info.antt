-- ===== src/Package/Info.antt =====
-- apk-tools/src/package.c: the fields of a package, read from an index or from `.PKGINFO` and
-- written to an index.
use arianna_method_anchor_pr.Prelude.{
  ℕ, Bool, true, ◌||◌, Option, none, some, List, [], ◌∷◌, ◌==◌, if◌then◌else◌, islower, ℤ, pos,
  negsuc, replicate,
}
use arianna_method_anchor_pr.Blob.Slices.{cstr, for_each_segment}
use arianna_method_anchor_pr.Blob.Hex.{Access, ok, fault}
use arianna_method_anchor_pr.Blob.Number.{pull_uint}
use arianna_method_anchor_pr.Blob.Checksum.{Checksum, pull_csum}
use arianna_method_anchor_pr.Package.Dependency.{Dependency, deps_parse}

-- `filename`, which may be the mark APK_PKG_UNINSTALLABLE.
pub data Filename : Type 0 where
  no_file uninstallable : Filename
  named : List ℕ → Filename

-- `struct apk_package`: `none` is NULL.
pub record Package : Type 0 where
  pub name : Option (List ℕ)
  pub version : Option (List ℕ)
  pub arch : Option (List ℕ)
  pub url : Option (List ℕ)
  pub description : Option (List ℕ)
  pub license : Option (List ℕ)
  pub depends : List Dependency
  pub installed_size : ℕ
  pub size : ℕ
  pub filename : Filename
  pub csum : Checksum

abbrev pub pkg_new : Package
pkg_new = record {
  name = none;
  version = none;
  arch = none;
  url = none;
  description = none;
  license = none;
  depends = [];
  installed_size = 0;
  size = 0;
  filename = no_file;
  csum = record { data_bytes = replicate 20 0; kind = 0 };
}

-- The package and the two marks of the database that `apk_pkg_add_info` sets.
pub record Reading : Type 0 where
  pub pkg : Package
  pub notinstallable : Bool
  pub newfeatures : Bool

-- The fields that the installed database has for itself.
unfoldable pub of_database : ℕ → Bool
of_database f = f == b'F' || f == b'M' || f == b'R' || f == b'Z'

-- The `default` case.
unfoldable pub unknown_field : ℕ → Reading → Reading
unfolding islower
unknown_field f r = if islower f then record r { newfeatures = true } else record r {
  pkg = record r.pkg { filename = uninstallable };
  notinstallable = true;
  newfeatures = true;
}

-- `value` is NULL after a checksum that could not be read, which is -1.
abbrev pub with_csum : Reading → Access (Option (List ℕ) × Checksum) → Access (ℤ × Reading)
with_csum r (ok (none, c)) = ok (negsuc 0, record r { pkg = record r.pkg { csum = c } })
with_csum r (ok (some s, c)) = ok (pos 0, record r { pkg = record r.pkg { csum = c } })
with_csum r fault = fault

abbrev pub changed : Reading → Package → Access (ℤ × Reading)
changed r p = ok (pos 0, record r { pkg = p })

-- `apk_pkg_add_info`, for a value that is not NULL.
unfoldable pub add_info : Reading → ℕ → List ℕ → Access (ℤ × Reading)
unfolding cstr deps_parse pull_csum pull_uint of_database unknown_field
add_info r f value =
    let p = r.pkg in
    if f == b'P'
    then changed r (record p { name = some value })
    else if f == b'V'
    then changed r (record p { version = some (cstr value) })
    else if f == b'T'
    then changed r (record p { description = some (cstr value) })
    else if f == b'U'
    then changed r (record p { url = some (cstr value) })
    else if f == b'L'
    then changed r (record p { license = some (cstr value) })
    else if f == b'A'
    then changed r (record p { arch = some (cstr value) })
    else if f == b'D'
    then changed r (record p { depends = deps_parse p.depends value })
    else if f == b'C'
    then with_csum r (pull_csum (some value) p.csum)
    else if f == b'S'
    then changed r (record p { size = (pull_uint value 10).0 })
    else if f == b'I'
    then changed r (record p { installed_size = (pull_uint value 10).0 })
    else if of_database f
    then ok (pos 1, r)
    else ok (pos 1, unknown_field f r)

abbrev pub dropped : Access (ℤ × Reading) → Access Reading
dropped (ok (rc, r)) = ok r
dropped fault = fault

-- `parse_index_line`, which drops the status.
unfoldable pub index_line : Access Reading → List ℕ → ℤ × Access Reading
unfolding add_info
index_line (ok r) (f ∷ x ∷ c ∷ s) =
    if x == b':' then (pos 0, dropped (add_info r f (c ∷ s))) else (pos 0, ok r)
index_line a s = (pos 0, a)

-- A package without a name is NULL.
abbrev pub with_name : Access Reading → Access (Option Package × Reading)
with_name fault = fault
with_name (ok r) = elim r.pkg.name [ none ↦ ok (none, r) | some n ↦ ok (some r.pkg, r) ]

-- `apk_pkg_parse_index_entry`, with the marks of the database before and after.
unfoldable pub parse_index_entry : Reading → List ℕ → Access (Option Package × Reading)
unfolding for_each_segment index_line
parse_index_entry r s =
    with_name (for_each_segment index_line b'\n' [] s (ok (record r { pkg = pkg_new }))).1
