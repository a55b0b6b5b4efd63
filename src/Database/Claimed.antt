-- ===== src/Database/Claimed.antt =====
-- After `apk_db_migrate_files` a query finds the files of the package.
use mathlib.Core.Path.{subst}
use arianna_method_anchor_pr.Prelude.{
  ℕ, ◌<◌, ◌≡◌, refl, sym, Bool, Option, none, some, List, ◌==◌, ==_iff, length, length-set, inl,
  inr, Bool-cases,
}
use arianna_method_anchor_pr.Blob.Slices.{hash, hash_seed}
use arianna_method_anchor_pr.Hash.{hash_of_item, get, get_hashed, insert, delete_hashed}
use arianna_method_anchor_pr.Database.Dirs.{Dir}
use arianna_method_anchor_pr.Database.Files.{
  FileItem, Files, file_ops, file_at, file_query, file_hash_key, file_hash_item,
}
use arianna_method_anchor_pr.Database.Owned.{item_for, query-insert_self}
use arianna_method_anchor_pr.Database.Migrate.{FileSystem, claim, migrate_file}

-- The entry of a file in a directory with this `hash` field.
abbrev filed : ℕ → List ℕ → List ℕ → ℕ → FileItem
filed i d n h = record { node = i; dirname = d; dir_hash = h; filename = n }

abbrev Owns : Files → ℕ → List ℕ → List ℕ → ℕ → Type 0
Owns db i d n h =
    let hash = hash_seed n h in
    let new = claim db (d, n) hash (filed i d n h) (get_hashed file_ops db.table (d, n) hash) in
    (f : FileItem) × (file_query new d n ≡ some f) × (f.node ≡ i)

claim-owns :
    (db : Files) (i : ℕ) (d n : List ℕ) (o : Option FileItem)
    → 0 < length db.table.buckets
    → get_hashed file_ops db.table (d, n) (hash_seed n (hash d)) ≡ o
    → let new = claim db (d, n) (hash_seed n (hash d)) (item_for i d n) o in
      (f : FileItem) × (file_query new d n ≡ some f) × (f.node ≡ i)
unfolding claim file_query get file_hash_key insert hash_of_item file_hash_item delete_hashed
claim-owns db i d n none b e =
    let new = claim db (d, n) (hash_seed n (hash d)) (item_for i d n) none in
    (item_for i d n, query-insert_self db new i d n b refl, refl)
claim-owns db i d n (some o) b e = elim (Bool-cases (o.node == i)) [
  | inl y ↦ rw y (o, e, (==_iff o.node i).0 y)
  | inr m ↦
      let less : Files = record db {
        table = delete_hashed file_ops db.table (d, n) (hash_seed n (hash d));
      } in
      let new : Files = record db { table = insert file_ops less.table (item_for i d n) } in
      rw m (item_for i d n, query-insert_self less new i d n (rw length-set b) refl, refl)
]

module _ {S : Type 0} (disk : FileSystem S) (clean_protected : Bool) (has_name : ℕ → Bool) where
  -- After its round a file in a directory that is filed under the hash of its name is the one that a
  -- query finds.
  pub migrate_file-owns :
      (dir : Dir) (i : ℕ) (db : Files) (s : S)
      → 0 < length db.table.buckets
      → dir.hash ≡ hash dir.name
      → let (db', s') = migrate_file disk clean_protected has_name dir i (db, s) in
        (f : FileItem) × (file_query db' dir.name (file_at db i).name ≡ some f) × (f.node ≡ i)
  unfolding migrate_file
  migrate_file-owns dir i db s b e =
      let n = (file_at db i).name in
      subst (λ (h : ℕ). Owns db i dir.name n h) (sym e) (claim-owns db i dir.name n _ b refl)
