-- ===== src/Tests/Packages.antt =====
-- Names of package files and index entries at inputs that can be followed in the source.
use arianna_method_anchor_pr.Prelude.{◌≡◌, refl, true, false, none, some, [], ◌∷◌, bytes, pos}
use arianna_method_anchor_pr.Blob.Slices.{split}
use arianna_method_anchor_pr.Blob.Hex.{ok}
use arianna_method_anchor_pr.Package.Names.{parse_name, script_type}
use arianna_method_anchor_pr.Package.Installed.{Lists}
use arianna_method_anchor_pr.Package.Info.{Reading, pkg_new, uninstallable, parse_index_entry}

busybox : parse_name (some (bytes "busybox-1.20-r1")) ≡ some (bytes "busybox", bytes "1.20-r1")
unfolding parse_name
busybox = refl

no_version : parse_name (some (bytes "busy-box")) ≡ none
unfolding parse_name
no_version = refl

upgrade_script : script_type (bytes "pre-upgrade") ≡ pos 4
unfolding script_type
upgrade_script = refl

abbrev fresh : Reading
fresh = record { pkg = pkg_new; notinstallable = false; newfeatures = false }

-- An entry with a field `X`, which the program does not know.
abbrev entry : Reading
entry = record {
  pkg = record pkg_new { name = some (bytes "a"); filename = uninstallable };
  notinstallable = true;
  newfeatures = true;
}

reads_entry : parse_index_entry fresh (bytes "P:a\nX:1\n") ≡ ok (some entry.pkg, entry)
unfolding parse_index_entry split
reads_entry = refl

abbrev two_installed : Lists
two_installed = record { packages = 4 ∷ 7 ∷ []; triggers = []; count = 2 }
