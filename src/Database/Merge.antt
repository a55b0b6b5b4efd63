-- ===== src/Database/Merge.antt =====
-- Packages with the same checksum are one package of the database.
use arianna_method_anchor_pr.Prelude.{
  ◌<◌, ◌≡◌, ◌≢◌, refl, sym, ap, ◌∙◌, Option, Option-cases, none, some, List, [], ◌∷◌, ◌++◌, arith,
  length, length-set, length-append, get_or, set, get_or-set_self, inl, inr,
}
use arianna_method_anchor_pr.Hash.{insert, insert_hashed}
use arianna_method_anchor_pr.Blob.Checksum.{Checksum, digest}
use arianna_method_anchor_pr.Database.Keys.{get-insert_self, get-insert_either, get-insert_other}
use arianna_method_anchor_pr.Database.Packages.{
  Item, Info, Packages, csum_hash, info_ops, get_pkg, no_info, merged, pkg_add, add_pkg,
  pkg_rdepends, merged_filename, merged_ipkg,
}
use arianna_method_anchor_pr.Package.Info.{Filename, no_file, uninstallable, named}
use arianna_method_anchor_pr.Package.Installed.{Ipkg}
use Prim.Native.Nat.{bit_or}

-- Every package that a lookup finds has its place in memory.
pub record IsValid (db : Packages) : Type 0 where
  pub some_buckets : 0 < length db.table.buckets
  pub placed : (c : Checksum) (i : Item) → get_pkg db c ≡ some i → i.node < length db.infos

abbrev pub info_at : Packages → Item → Info
info_at db i = get_or db.infos i.node no_info

get_or-last : (xs : List Info) (x : Info) → get_or (xs ++ x ∷ []) (length xs) no_info ≡ x
get_or-last [] x = refl
get_or-last (y ∷ xs) x = get_or-last xs x

abbrev new_item : Packages → Checksum → Item
new_item db csum = record { node = length db.infos; csum = csum }

-- The database after a package was added that had not been there, and after one was merged.
abbrev with_new : Packages → Checksum → Info → Packages
with_new db csum pkg = record {
  table = insert info_ops db.table (new_item db csum);
  infos = db.infos ++ pkg ∷ [];
  links = pkg_rdepends (add_pkg db.links pkg.name (length db.infos)) pkg.name pkg.depends;
}

abbrev with_old : Packages → Item → Info → Packages
with_old db i pkg = record db { infos = set db.infos i.node (merged (info_at db i) pkg) }

pkg_add_new :
    (db : Packages) (csum : Checksum) (pkg : Info)
    → get_pkg db csum ≡ none
    → pkg_add db csum pkg ≡ (new_item db csum, with_new db csum pkg)
unfolding pkg_add get_pkg
pkg_add_new db csum pkg h = ground (arith, h)

pkg_add_old :
    (db : Packages) (csum : Checksum) (pkg : Info) (i : Item)
    → get_pkg db csum ≡ some i
    → pkg_add db csum pkg ≡ (i, with_old db i pkg)
unfolding pkg_add get_pkg
pkg_add_old db csum pkg i h = ground (arith, h)

with_new-IsValid :
    (db : Packages) (csum : Checksum) (pkg : Info) → IsValid db → IsValid (with_new db csum pkg)
unfolding get_pkg insert insert_hashed
with_new-IsValid db csum pkg v =
    let grown = length-append db.infos (pkg ∷ []) in
    record {
      some_buckets = rw length-set v.some_buckets;
      placed = λ c i found.
          elim (get-insert_either (λ (i : Item). digest i.csum) csum_hash db.table v.some_buckets
            (new_item db csum) (digest c) i found) [
              | inl (new, same) ↦
                  let z : i.node ≡ length db.infos = ap (λ (k : Item). k.node) new in omega arith
              | inr old ↦ let l = v.placed c i old in omega arith
            ];
    }

-- The first file name that is not NULL.
abbrev pub first_file : Filename → Filename → Filename
first_file no_file no_file = no_file
first_file no_file uninstallable = uninstallable
first_file no_file (named s) = named s
first_file uninstallable g = uninstallable
first_file (named s) g = named s

-- The first installation that is not NULL.
abbrev pub first_ipkg : Option Ipkg → Option Ipkg → Option Ipkg
first_ipkg none none = none
first_ipkg none (some j) = some j
first_ipkg (some i) o = some i

-- What a package becomes: what was given, or what had its checksum, which keeps its name and its
-- dependencies, and has the repositories of both and the first file name and installation there is.
abbrev pub outcome : Packages → Option Item → Info → Info
outcome db none pkg = pkg
outcome db (some old) pkg =
    let had = info_at db old in
    record {
      name = had.name;
      depends = had.depends;
      repos = bit_or had.repos pkg.repos;
      filename = first_file had.filename pkg.filename;
      ipkg = first_ipkg had.ipkg pkg.ipkg;
    }

merged-filename : (f g : Filename) → merged_filename f g ≡ first_file f g
unfolding merged_filename
merged-filename no_file no_file = refl
merged-filename no_file uninstallable = refl
merged-filename no_file (named s) = refl
merged-filename uninstallable g = refl
merged-filename (named s) g = refl

merged-ipkg : (i o : Option Ipkg) → merged_ipkg i o ≡ first_ipkg i o
unfolding merged_ipkg
merged-ipkg none none = refl
merged-ipkg none (some j) = refl
merged-ipkg (some i) o = refl

merged-outcome :
    (db : Packages) (old : Item) (pkg : Info)
    → merged (info_at db old) pkg ≡ outcome db (some old) pkg
unfolding merged
merged-outcome db old pkg =
    let had = info_at db old in
    rw (merged-filename had.filename pkg.filename, merged-ipkg had.ipkg pkg.ipkg) refl

-- After `apk_db_pkg_add` the checksum of the package finds what was returned; the package is the one
-- that was given, or the one that had the checksum, with the repositories of both, and with the file
-- name and the installation of the given one where it had none; and every package that is found has a
-- place in memory.
pub get_pkg-pkg_add :
    (db : Packages) (csum : Checksum) (pkg : Info)
    → IsValid db
    → let (i, db') = pkg_add db csum pkg in
      (get_pkg db' csum ≡ some i) × (info_at db' i ≡ outcome db (get_pkg db csum) pkg) × IsValid db'
unfolding get_pkg insert insert_hashed
get_pkg-pkg_add db csum pkg v = elim (Option-cases (get_pkg db csum)) [
  | inl missing ↦
      let i = new_item db csum in
      rw (pkg_add_new db csum pkg missing) (
        get-insert_self (λ (i : Item). digest i.csum) csum_hash db.table v.some_buckets i,
        get_or-last db.infos pkg ∙ sym (ap (λ (o : Option Item). outcome db o pkg) missing),
        with_new-IsValid db csum pkg v,
      )
  | inr (old, found) ↦
      let l = v.placed csum old found in
      rw (pkg_add_old db csum pkg old found) (
        found,
        get_or-set_self db.infos old.node _ no_info l
            ∙ merged-outcome db old pkg
            ∙ sym (ap (λ (o : Option Item). outcome db o pkg) found),
        record { some_buckets = v.some_buckets; placed = λ c i h. rw length-set (v.placed c i h) },
      )
]

-- Every other checksum finds what it found before.
pub get_pkg-pkg_add_other :
    (db : Packages) (csum c : Checksum) (pkg : Info)
    → IsValid db
    → digest c ≢ digest csum
    → get_pkg (pkg_add db csum pkg).1 c ≡ get_pkg db c
unfolding get_pkg
get_pkg-pkg_add_other db csum c pkg v ne = elim (Option-cases (get_pkg db csum)) [
  | inl missing ↦ rw (pkg_add_new db csum pkg missing) (
      get-insert_other (λ (i : Item). digest i.csum) csum_hash db.table v.some_buckets
        (new_item db csum) (digest c) ne)
  | inr (old, found) ↦ rw (pkg_add_old db csum pkg old found) refl
]

-- A package whose checksum is in the database is not added again: the table and the links of the
-- names stay as they are, and so does the number of packages.
pub pkg_add_twice :
    (db : Packages) (csum : Checksum) (pkg again : Info)
    → IsValid db
    → let (i, db') = pkg_add db csum pkg in
      let (j, db'') = pkg_add db' csum again in
      (j ≡ i)
      × (db''.table ≡ db'.table)
      × (db''.links ≡ db'.links)
      × (length db''.infos ≡ length db'.infos)
pkg_add_twice db csum pkg again v =
    let (found, _, _) = get_pkg-pkg_add db csum pkg v in
    let (i, db') = pkg_add db csum pkg in
    rw (pkg_add_old db' csum again i found) (refl, refl, refl, length-set db'.infos i.node _)
