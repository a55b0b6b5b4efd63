-- ===== src/Database/Purge.antt =====
-- apk-tools/src/database.c: `apk_db_purge_pkg`.
use arianna_method_anchor_pr.Prelude.{
  ℕ, ◌+◌, ◌-◌, ◌%◌, ◌^◌, ◌≡◌, Bool, true, false, not, ◌&&◌, ◌||◌, Option, none, some, List, [], ◌∷◌,
  ◌==◌, if◌then◌else◌, set, arith,
}
use arianna_method_anchor_pr.Blob.Slices.{hash_seed}
use arianna_method_anchor_pr.Blob.Checksum.{Checksum}
use arianna_method_anchor_pr.Hash.{delete_hashed}
use arianna_method_anchor_pr.Database.Dirs.{Dir, Dirs, dir_at, dir_unref}
use arianna_method_anchor_pr.Database.Files.{Files, file_ops, file_at, diri_at}
use arianna_method_anchor_pr.Database.Migrate.{
  FileSystem, same_csum, is_protected, path_of, mark_modified,
}

-- The file on disk is there and has the checksum.
abbrev pub is_unchanged : Checksum → Option Checksum → Bool
is_unchanged csum none = false
is_unchanged csum (some c) = same_csum csum c

-- What is appended to the names: `none` is NULL.
abbrev pub ending : Option (List ℕ) → List ℕ
ending none = []
ending (some s) = s

abbrev pub mark_purged : Option (List ℕ) → Dirs → ℕ → Dirs
mark_purged none dirs i = mark_modified dirs i
mark_purged (some e) dirs i = dirs

module _ {S : Type 0} (disk : FileSystem S) (purge : Bool) where
  -- What happens on disk to a file of the package.
  unfoldable pub purge_disk : Bool → Checksum → List ℕ → S → S
  unfolding same_csum
  purge_disk is_protected csum name s =
      let unchanged = not (csum.kind == 0) && is_unchanged csum (disk.info s name csum.kind) in
      if not is_protected || purge || unchanged then disk.unlinkat s name else s

  -- What happens to its entry; without an ending it leaves the table.
  unfoldable pub forget_file : Option (List ℕ) → Dir → List ℕ → Files → Files
  unfolding hash_seed
  forget_file (some e) dir name db = db
  forget_file none dir name db = record db {
    table = delete_hashed file_ops db.table (dir.name, name) (hash_seed name dir.hash);
    count = (db.count + (2 ^ 32 - 1)) % 2 ^ 32;
  }

  unfoldable pub purge_loop : Option (List ℕ) → Dir → List ℕ → Files × S → Files × S
  unfolding purge_disk forget_file path_of
  purge_loop exten dir [] r = r
  purge_loop exten dir (i ∷ is) (db, s) =
      let file = file_at db i in
      purge_loop exten dir is (
        forget_file exten dir file.name db,
        purge_disk (is_protected dir) file.csum (path_of dir.name file.name (ending exten)) s,
      )

  -- `apk_db_purge_pkg` of the instances that the package owns, which owns none then.
  unfoldable pub purge_pkg : Option (List ℕ) → List ℕ → Dirs → Files × S → Dirs × Files × S
  unfolding purge_loop dir_unref
  purge_pkg exten [] dirs (db, s) = (dirs, db, s)
  purge_pkg exten (x ∷ xs) dirs (db, s) =
      let d = diri_at db x in
      let dirs' = mark_purged exten dirs d.dir in
      let (db', s') = purge_loop exten (dir_at dirs' d.dir) d.owned_files (db, s) in
      let db'' : Files = record db' { diris = set db'.diris x (record d { owned_files = [] }) } in
      purge_pkg exten xs (dir_unref true dirs' d.dir) (db'', s')

  -- Without the wish to purge, a file in a protected directory that is there and has not the checksum
  -- of its entry stays on disk.
  pub purge_disk-kept :
      (csum c : Checksum) (name : List ℕ) (s : S)
      → purge ≡ false
      → disk.info s name csum.kind ≡ some c
      → same_csum csum c ≡ false
      → purge_disk true csum name s ≡ s
  unfolding purge_disk
  purge_disk-kept csum c name s kept there changed = ground (arith, kept, there, changed)
