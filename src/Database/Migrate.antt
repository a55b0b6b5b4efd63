-- ===== src/Database/Migrate.antt =====
-- apk-tools/src/database.c: `apk_db_migrate_files` and `apk_db_purge_pkg`.
use Prim.Native.Nat.{bit_or}
use arianna_method_anchor_pr.Prelude.{
  ℕ, ◌+◌, ◌%◌, ◌^◌, Bool, true, false, not, ◌&&◌, ◌||◌, Option, none, some, List, [], ◌∷◌, ◌++◌,
  ◌==◌, if◌then◌else◌, set, take, pos, int_eq, bytes, bit_test,
}
use arianna_method_anchor_pr.Blob.Slices.{hash_seed, compare, c_string}
use arianna_method_anchor_pr.Blob.Checksum.{Checksum, digest}
use arianna_method_anchor_pr.Hash.{get_hashed, insert_hashed, delete_hashed}
use arianna_method_anchor_pr.Package.Installed.{unlink}
use arianna_method_anchor_pr.Database.Dirs.{Dirs, Dir, dir_at, put_dir, dir_modified}
use arianna_method_anchor_pr.Database.Files.{Key, FileItem, Files, file_ops, file_at, diri_at}

-- The files on disk: `apk_file_get_info` of a path with a kind of checksum, which gives the checksum
-- of a file that is there; `unlinkat`; and `renameat`.
pub record FileSystem (S : Type 0) : Type 0 where
  pub info : S → List ℕ → ℕ → Option Checksum
  pub unlinkat : S → List ℕ → S
  pub renameat : S → List ℕ → List ℕ → S

-- `apk_checksum_compare(a, b) == 0`
unfoldable pub same_csum : Checksum → Checksum → Bool
unfolding compare
same_csum a b = int_eq (compare (digest a) (digest b)) (pos 0)

-- APK_DBDIRF_PROTECTED is the bit 0, APK_CLEAN_PROTECTED and APK_PURGE are flags of the call.
abbrev pub is_protected : Dir → Bool
is_protected d = bit_test d.flags 0

-- The paths in the buffers of PATH_MAX bytes.
unfoldable pub path_of : List ℕ → List ℕ → List ℕ → List ℕ
unfolding c_string
path_of dir file exten = take 4095 (c_string dir ++ (bytes "/" ++ (c_string file ++ exten)))

-- What the code knows of the file that is in the table: whether it is from the overlay, that is, of
-- a package without a name, and its checksum.
pub record Old : Type 0 where
  pub overlay : Bool
  pub csum : Checksum

abbrev pub is_overlay : Option Old → Bool
is_overlay none = false
is_overlay (some o) = o.overlay

abbrev pub old_kind : Option Old → ℕ
old_kind none = 0
old_kind (some o) = o.csum.kind

-- The file on disk has no entry in the database, or not the checksum of its entry.
abbrev pub is_changed : Option Old → Checksum → Bool
is_changed none c = true
is_changed (some o) c = o.csum.kind == 0 || not (same_csum o.csum c)

-- `fi.csum` after the second look, which is taken unless the first was with this kind.
abbrev pub second_look : Option Old → Checksum → Checksum → Option Checksum → Checksum
second_look none csum first (some c) = c
second_look none csum first none = first
second_look (some o) csum first (some c) = if o.csum.kind == csum.kind then first else c
second_look (some o) csum first none = first

module _ {S : Type 0} (disk : FileSystem S) (clean_protected : Bool) where
  -- What happens on disk to a file of the package; `csum` is its new checksum.
  unfoldable pub migrate_disk : Bool → Option Old → Checksum → List ℕ → List ℕ → S → S
  unfolding same_csum
  migrate_disk is_protected old csum name tmpname s =
      let first = disk.info s name (if is_protected then old_kind old else 0) in
      if is_overlay old
      then disk.unlinkat s tmpname
      else elim (if is_protected then first else none) [
        | none ↦ disk.renameat s tmpname name
        | some c ↦
            if is_changed old c
            then (let c' = second_look old csum c (disk.info s name csum.kind) in
                if clean_protected || (not (csum.kind == 0) && same_csum csum c')
                then disk.unlinkat s tmpname
                else s)
            else disk.renameat s tmpname name
      ]

-- The file is taken from the instance that owns it.
abbrev pub disown : Files → ℕ → Files
disown db i =
    let d = diri_at db (file_at db i).diri in
    record db {
      diris = set db.diris (file_at db i).diri (record d { owned_files = unlink i d.owned_files });
    }

-- The ownership in the database, where `old` is the entry in the table.
unfoldable pub claim : Files → Key → ℕ → FileItem → Option FileItem → Files
unfolding unlink
claim db key hash file none = record db {
  table = insert_hashed file_ops db.table file hash;
  count = (db.count + 1) % 2 ^ 32;
}
claim db key hash file (some o) = if o.node == file.node then db else record (disown db o.node) {
  table = insert_hashed file_ops (delete_hashed file_ops db.table key hash) file hash;
}

-- `dir->flags |= APK_DBDIRF_MODIFIED`
abbrev pub mark_modified : Dirs → ℕ → Dirs
mark_modified dirs i =
    let d = dir_at dirs i in put_dir dirs i (record d { flags = bit_or d.flags dir_modified })

-- One round of the inner loop; `has_name` tells of a package whether it has a name.
module _ {S : Type 0} (disk : FileSystem S) (clean_protected : Bool) (has_name : ℕ → Bool) where
  abbrev pub old_of : Files → Option FileItem → Option Old
  old_of db none = none
  old_of db (some o) = some (record {
    overlay = not (has_name (diri_at db (file_at db o.node).diri).pkg);
    csum = (file_at db o.node).csum;
  })

  unfoldable pub migrate_file : Dir → ℕ → Files × S → Files × S
  unfolding migrate_disk path_of claim hash_seed
  migrate_file dir i (db, s) =
      let file = file_at db i in
      let key : Key = (dir.name, file.name) in
      let hash = hash_seed file.name dir.hash in
      let ofile = get_hashed file_ops db.table key hash in
      let item : FileItem = record {
        node = i;
        dirname = dir.name;
        dir_hash = dir.hash;
        filename = file.name;
      } in
      (
        claim db key hash item ofile,
        migrate_disk disk clean_protected (is_protected dir) (old_of db ofile) file.csum
            (path_of dir.name file.name []) (path_of dir.name file.name (bytes ".apk-new")) s,
      )

  unfoldable pub files_loop : Dir → List ℕ → Files × S → Files × S
  unfolding migrate_file
  files_loop dir [] r = r
  files_loop dir (i ∷ is) r = files_loop dir is (migrate_file dir i r)

  -- `apk_db_migrate_files` of the instances that the package owns.
  unfoldable pub migrate_files : List ℕ → Dirs → Files × S → Dirs × Files × S
  unfolding files_loop
  migrate_files [] dirs (db, s) = (dirs, db, s)
  migrate_files (x ∷ xs) dirs (db, s) =
      let d = diri_at db x in
      let dirs' = mark_modified dirs d.dir in
      migrate_files xs dirs' (files_loop (dir_at dirs' d.dir) d.owned_files (db, s))
