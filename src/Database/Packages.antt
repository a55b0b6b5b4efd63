-- ===== src/Database/Packages.antt =====
-- apk-tools/src/database.c: the packages of the database, and which names depend on a name.
use Prim.Native.Nat.{bit_or}
use arianna_method_anchor_pr.Prelude.{
  ℕ, ◌+◌, ◌*◌, Bool, false, ◌||◌, Option, none, some, List, [], ◌∷◌, ◌++◌, ◌==◌, if◌then◌else◌,
  length, get_or, set, take,
}
use arianna_method_anchor_pr.Hash.{Hash, Ops, get, insert}
use arianna_method_anchor_pr.Blob.Checksum.{Checksum, digest}
use arianna_method_anchor_pr.Package.Info.{Filename, no_file, uninstallable, named}
use arianna_method_anchor_pr.Package.Installed.{Ipkg}
use arianna_method_anchor_pr.Database.Keys.{keyed}
use arianna_method_anchor_pr.Database.Names.{Links, no_links}

-- What the table reads of a `struct apk_package`; `node` stands for its address.
pub record Item : Type 0 where
  pub node : ℕ
  pub csum : Checksum

-- The other fields that the database reads or changes. Names stand by their nodes; `none` is NULL.
pub record Info : Type 0 where
  pub name : ℕ
  pub depends : List ℕ
  pub repos : ℕ
  pub filename : Filename
  pub ipkg : Option Ipkg

-- `available.packages`, the memory of the packages and of the links of the names by node.
pub record Packages : Type 0 where
  pub table : Hash Item
  pub infos : List Info
  pub links : List Links

-- The bytes as a number with the lowest first, as `csum_hash` reads eight of them.
abbrev pub little_endian : List ℕ → ℕ
little_endian [] = 0
little_endian (c ∷ s) = c + 256 * little_endian s

-- `csum_hash`. A checksum of no kind has no bytes in its key, but zeros in memory.
unfoldable pub csum_hash : List ℕ → ℕ
csum_hash s = little_endian (take 8 s)

-- `pkg_info_hash_ops`
abbrev pub info_ops : Ops (List ℕ) Item
info_ops = keyed (λ i. digest i.csum) csum_hash

-- `apk_db_get_pkg`
unfoldable pub get_pkg : Packages → Checksum → Option Item
get_pkg db csum = get info_ops db.table (digest csum)

-- The inner loop of `apk_db_pkg_rdepends`.
unfoldable pub is_listed : ℕ → List ℕ → Bool
is_listed n [] = false
is_listed n (m ∷ ms) = m == n || is_listed n ms

abbrev pub rdepends_at : List Links → ℕ → List ℕ
rdepends_at links i = (get_or links i no_links).rdepends

abbrev pub add_rdepend : List Links → ℕ → ℕ → List Links
add_rdepend links i n =
    set links i (record (get_or links i no_links) { rdepends = rdepends_at links i ++ n ∷ [] })

-- `apk_db_pkg_rdepends` of a package with the name `n`. It returns at the first dependency whose
-- name lists this name.
unfoldable pub pkg_rdepends : List Links → ℕ → List ℕ → List Links
unfolding is_listed
pkg_rdepends links n [] = links
pkg_rdepends links n (d ∷ ds) =
    let rest = pkg_rdepends (add_rdepend links d n) n ds in
    if is_listed n (rdepends_at links d) then links else rest

abbrev pub add_pkg : List Links → ℕ → ℕ → List Links
add_pkg links n p =
    let l = get_or links n no_links in set links n (record l { pkgs = l.pkgs ++ p ∷ [] })

unfoldable pub merged_filename : Filename → Filename → Filename
merged_filename no_file f = f
merged_filename uninstallable f = uninstallable
merged_filename (named s) f = named s

unfoldable pub merged_ipkg : Option Ipkg → Option Ipkg → Option Ipkg
merged_ipkg none i = i
merged_ipkg (some i) j = some i

abbrev pub no_info : Info
no_info = record { name = 0; depends = []; repos = 0; filename = no_file; ipkg = none }

-- What the package `idb` that is there takes from the package `pkg` that is freed.
unfoldable pub merged : Info → Info → Info
unfolding merged_filename merged_ipkg
merged idb pkg = record idb {
  repos = bit_or idb.repos pkg.repos;
  filename = merged_filename idb.filename pkg.filename;
  ipkg = merged_ipkg idb.ipkg pkg.ipkg;
}

-- `apk_db_pkg_add` of a package that is in no table yet.
unfoldable pub pkg_add : Packages → Checksum → Info → Item × Packages
pkg_add db csum pkg = elim (get info_ops db.table (digest csum)) [
  | none ↦
      let idb : Item = record { node = length db.infos; csum = csum } in
      (
        idb,
        record {
          table = insert info_ops db.table idb;
          infos = db.infos ++ pkg ∷ [];
          links = pkg_rdepends (add_pkg db.links pkg.name idb.node) pkg.name pkg.depends;
        },
      )
  | some idb ↦ (
    idb,
    record db { infos = set db.infos idb.node (merged (get_or db.infos idb.node no_info) pkg) },
  )
]
