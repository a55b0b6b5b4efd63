-- ===== src/Database/Protected.antt =====
-- What installing a package does to the files that are there.
use arianna_method_anchor_pr.Prelude.{
  ℕ, ◌<◌, ◌≡◌, refl, Bool, true, false, ◌&&◌, Option, none, some, List, [], ◌∷◌, arith, ◌==◌,
  if_either, length, length-set, inl, inr, Bool-cases, Option-cases, ◌⊎◌,
}
use arianna_method_anchor_pr.Blob.Checksum.{Checksum}
use arianna_method_anchor_pr.Hash.{Hash, get_hashed, insert_hashed, delete_hashed}
use arianna_method_anchor_pr.Hash.Laws.{insert_hashed-total, delete_hashed-total}
use arianna_method_anchor_pr.Database.Dirs.{Dir, Dirs, dir_at}
use arianna_method_anchor_pr.Database.Files.{Key, FileItem, Files, file_ops, diri_at}
use arianna_method_anchor_pr.Database.Owned.{IsCounted}
use arianna_method_anchor_pr.Database.Migrate.{
  FileSystem, Old, old_kind, is_overlay, is_changed, migrate_disk, claim, migrate_file, files_loop,
  migrate_files, mark_modified,
}

-- The file on disk is there and changed.
abbrev pub is_present : Option Old → Option Checksum → Bool
is_present old none = false
is_present old (some c) = is_changed old c

module _ {S : Type 0} (disk : FileSystem S) (clean_protected : Bool) where
  -- A file in a protected directory that is on disk, and has no entry or not the checksum of its entry,
  -- is not overwritten: at most the new file beside it is removed.
  pub migrate_disk-kept :
      (old : Option Old) (csum c : Checksum) (name tmpname : List ℕ) (s : S)
      → disk.info s name (old_kind old) ≡ some c
      → is_changed old c ≡ true
      → let s' = migrate_disk disk clean_protected true old csum name tmpname s in
        (s' ≡ s) ⊎ (s' ≡ disk.unlinkat s tmpname)
  unfolding migrate_disk
  migrate_disk-kept old csum c name tmpname s there changed = elim (Bool-cases (is_overlay old)) [
    | inl y ↦ inr (rw y refl)
    | inr n ↦
        rw (n, there, changed)
          (if_either (λ (r : S). (r ≡ s) ⊎ (r ≡ disk.unlinkat s tmpname)) _
            (disk.unlinkat s tmpname) s (inr refl) (inl refl))
  ]

  -- A file that is not from the overlay is replaced by the new one if its directory is not protected,
  -- if it is not on disk, or if it still has the checksum of its entry.
  pub migrate_disk-replaced :
      (prot : Bool) (old : Option Old) (csum : Checksum) (name tmpname : List ℕ) (s : S)
      → is_overlay old ≡ false
      → (prot && is_present old (disk.info s name (old_kind old))) ≡ false
      → migrate_disk disk clean_protected prot old csum name tmpname s
        ≡ disk.renameat s tmpname name
  unfolding migrate_disk
  migrate_disk-replaced false old csum name tmpname s o h = rw o refl
  migrate_disk-replaced true old csum name tmpname s o h =
      elim (Option-cases (disk.info s name (old_kind old))) [
        | inl missing ↦ rw (o, missing) refl
        | inr (c, there) ↦
            let same : is_changed old c ≡ false = rw there at h in rw (o, there, same) refl
      ]

-- The table has chains, and `stats.files` is the number of its files.
abbrev pub IsStocked : Files → Type 0
IsStocked db = (0 < length db.table.buckets) × IsCounted db

chains-delete :
    (h : Hash FileItem) (key : Key) (hash : ℕ)
    → 0 < length h.buckets
    → 0 < length (delete_hashed file_ops h key hash).buckets
unfolding delete_hashed
chains-delete h key hash b = rw length-set b

chains-insert :
    (h : Hash FileItem) (item : FileItem) (hash : ℕ)
    → 0 < length h.buckets
    → 0 < length (insert_hashed file_ops h item hash).buckets
unfolding insert_hashed
chains-insert h item hash b = rw length-set b

-- A file is claimed, whatever the table finds for it.
claim-IsStocked :
    (db : Files) (key : Key) (hash : ℕ) (item : FileItem) (o : Option FileItem)
    → get_hashed file_ops db.table key hash ≡ o
    → IsStocked db
    → IsStocked (claim db key hash item o)
unfolding claim
claim-IsStocked db key hash item none e (b, c) = (
  chains-insert db.table item hash b,
  omega (arith, c, insert_hashed-total file_ops db.table item hash b),
)
claim-IsStocked db key hash item (some o) e (b, c) = elim (Bool-cases (o.node == item.node)) [
  | inl y ↦ rw y (b, c)
  | inr n ↦
      let less = delete_hashed file_ops db.table key hash in
      let kept = chains-delete db.table key hash b in
      let removed = delete_hashed-total file_ops db.table key hash o b e in
      let added = insert_hashed-total file_ops less item hash kept in
      rw n (chains-insert less item hash kept, omega (arith, c, removed, added))
]

module _ {S : Type 0} (disk : FileSystem S) (clean_protected : Bool) (has_name : ℕ → Bool) where
  files_loop-IsStocked :
      (dir : Dir) (is : List ℕ) (db : Files) (s : S)
      → IsStocked db
      → IsStocked (files_loop disk clean_protected has_name dir is (db, s)).0
  unfolding files_loop migrate_file
  files_loop-IsStocked dir [] db s h = h
  files_loop-IsStocked dir (i ∷ is) db s h =
      let (db', s') = migrate_file disk clean_protected has_name dir i (db, s) in
      files_loop-IsStocked dir is db' s' (claim-IsStocked db _ _ _ _ refl h)

  -- `apk_db_migrate_files` keeps `stats.files` at the number of files in the table, modulo 2^32, while
  -- it takes files over from other packages, whatever is on disk.
  pub migrate_files-IsStocked :
      (xs : List ℕ) (dirs : Dirs) (db : Files) (s : S)
      → IsStocked db
      → IsStocked (migrate_files disk clean_protected has_name xs dirs (db, s)).1
  unfolding migrate_files
  migrate_files-IsStocked [] dirs db s h = h
  migrate_files-IsStocked (x ∷ xs) dirs db s h =
      let d = diri_at db x in
      let dirs' = mark_modified dirs d.dir in
      let (db', s') =
        files_loop disk clean_protected has_name (dir_at dirs' d.dir) d.owned_files (db, s) in
      migrate_files-IsStocked xs dirs' db' s'
        (files_loop-IsStocked (dir_at dirs' d.dir) d.owned_files db s h)
