-- ===== src/Tests/Directories.antt =====
-- Directories, files and indexes of apk-tools/src/database.c that can be followed in the source.
use arianna_method_anchor_pr.Prelude.{
  ℕ, suc, ◌+◌, ◌-◌, ◌%◌, ◌^◌, ◌≡◌, ◌⊎◌, refl, ap, true, false, none, some, List, [], ◌∷◌, ◌++◌,
  arith, length, replicate, get_or-replicate, bytes,
}
use arianna_method_anchor_pr.Blob.Slices.{hash, hash_seed, ends_with, compare}
use arianna_method_anchor_pr.Hash.{init, find, get_hashed, insert_hashed, answers}
use arianna_method_anchor_pr.Hash.Laws.{total}
use arianna_method_anchor_pr.Database.Repos.{no_csum}
use arianna_method_anchor_pr.Database.Dirs.{
  DirItem, Dirs, dir_ops, dir_at, dir_ref, dir_get, dir_unref, stripped,
}
use arianna_method_anchor_pr.Database.Dirs.Balance.{unref-dir_get, unref_again}
use arianna_method_anchor_pr.Database.Dirs.Tree.{IsFiled, IsTree}
use arianna_method_anchor_pr.Database.Dirs.Hung.{dir_get-IsTree}
use arianna_method_anchor_pr.Database.Files.{Files, FileItem, file_query}
use arianna_method_anchor_pr.Database.Migrate.{
  FileSystem, migrate_disk, migrate_files, migrate_file,
}
use arianna_method_anchor_pr.Database.Protected.{
  migrate_disk-kept, migrate_files-IsStocked, IsStocked,
}
use arianna_method_anchor_pr.Database.Claimed.{migrate_file-owns}

abbrev no_dirs : Dirs
no_dirs = record { table = init 4; dirs = []; count = 0; protected_paths = []; unlinked = [] }

nothing_filed : (key : List ℕ) (hash : ℕ) → get_hashed dir_ops (init 4) key hash ≡ none
unfolding get_hashed init find
nothing_filed key hash =
    ap (λ (l : List DirItem). find dir_ops l key)
      (get_or-replicate 4 (hash % length (replicate {A = List DirItem} 4 [])) [])

no_dirs-IsFiled : IsFiled no_dirs
no_dirs-IsFiled = record {
  some_buckets = unfold init in omega arith;
  filed =
      λ key h d found. let missing = nothing_filed key h in absurd (ground (arith, missing, found));
}

dir_get-IsTree_example :
    let (i, new) = dir_get no_dirs (bytes "usr/lib") in
    IsTree new
    × IsFiled new
    × ((dir_at new i).name ≡ stripped (bytes "usr/lib"))
    × (dir_get new (bytes "usr/lib") ≡ (i, dir_ref new i))
    × (new.count ≡ (0 + (length new.dirs - 0)) % 2 ^ 32)
dir_get-IsTree_example =
    dir_get-IsTree no_dirs (bytes "usr/lib") (omega arith) no_dirs-IsFiled (λ i. tt) (omega arith)

-- One directory with as many references.
abbrev one_dir : ℕ → Dirs
one_dir refs = record {
  table =
      insert_hashed dir_ops (init 4) (record { node = 0; text = bytes "usr" }) (hash (bytes "usr"));
  dirs =
      record {
        parent = none;
        refs = refs;
        flags = 0;
        name = bytes "usr";
        hash = hash (bytes "usr");
      }
      ∷ [];
  count = 1;
  protected_paths = [];
  unlinked = [];
}

usr_found :
    (refs : ℕ)
    → get_hashed dir_ops (one_dir refs).table (stripped (bytes "usr")) (hash (bytes "usr"))
      ≡ some (record { node = 0; text = bytes "usr" })
unfolding get_hashed insert_hashed init find hash hash_seed stripped ends_with answers compare
usr_found refs = refl

unref-dir_get_example :
    let (i, db') = dir_get (one_dir 1) (bytes "usr") in dir_unref true db' i ≡ one_dir 1
unref-dir_get_example =
    unref-dir_get (one_dir 1) (bytes "usr") (record { node = 0; text = bytes "usr" }) true
      (usr_found 1) (omega arith) (omega arith) (omega arith)

-- The root with two references, and a directory in it with none.
abbrev two_dirs : Dirs
two_dirs = record {
  table =
      insert_hashed dir_ops (init 4) (record { node = 1; text = bytes "usr" }) (hash (bytes "usr"));
  dirs =
      record { parent = none; refs = 2; flags = 0; name = []; hash = hash [] }
      ∷ record {
        parent = some 0;
        refs = 0;
        flags = 0;
        name = bytes "usr";
        hash = hash (bytes "usr");
      }
      ∷ [];
  count = 1;
  protected_paths = [];
  unlinked = [];
}

dead_found :
    get_hashed dir_ops two_dirs.table (stripped (bytes "usr")) (hash (bytes "usr"))
    ≡ some (record { node = 1; text = bytes "usr" })
unfolding get_hashed insert_hashed init find hash hash_seed stripped ends_with answers compare
dead_found = refl

unref_again_example :
    let (i, db') = dir_get two_dirs (bytes "usr") in
    let new = dir_unref true db' i in
    (db'.count ≡ 1)
    × ((dir_at db' 0).refs ≡ 2)
    × (new.count ≡ (1 + (2 ^ 32 - 1)) % 2 ^ 32)
    × ((dir_at new 0).refs + 1 ≡ 2)
    × (new.unlinked ≡ [] ++ (dir_at two_dirs i).name ∷ [])
unref_again_example =
    unref_again two_dirs (bytes "usr") (record { node = 1; text = bytes "usr" }) true 0 dead_found
      (omega arith) refl (omega arith) refl (omega arith) (omega arith) (omega arith)

-- A disk that counts what is done to it, where every file is there without a checksum.
abbrev disk : FileSystem ℕ
disk = record {
  info = λ s n k. some no_csum;
  unlinkat = λ s n. suc s;
  renameat = λ s t n. suc (suc s);
}

migrate_disk-kept_example :
    let s' = migrate_disk disk false true none no_csum (bytes "etc/a") (bytes "etc/a.apk-new") 0 in
    (s' ≡ 0) ⊎ (s' ≡ 1)
migrate_disk-kept_example =
    migrate_disk-kept disk false none no_csum no_csum (bytes "etc/a") (bytes "etc/a.apk-new") 0 refl
      refl

-- A package with one file in one directory.
abbrev one_file : Files
one_file = record {
  table = init 4;
  files = record { diri = 0; csum = no_csum; name = bytes "a" } ∷ [];
  diris = record { pkg = 0; dir = 0; mode = 0; uid = 0; gid = 0; owned_files = 0 ∷ [] } ∷ [];
  count = 0;
}

one_file-IsStocked : IsStocked one_file
unfolding init total
one_file-IsStocked = (omega arith, refl)

migrate_files-IsStocked_example :
    IsStocked (migrate_files disk false (λ p. true) (0 ∷ []) (one_dir 1) (one_file, 0)).1
migrate_files-IsStocked_example =
    migrate_files-IsStocked disk false (λ p. true) (0 ∷ []) (one_dir 1) one_file 0
      one_file-IsStocked

migrate_file-owns_example :
    let (db', s') = migrate_file disk false (λ p. true) (dir_at (one_dir 1) 0) 0 (one_file, 0) in
    (f : FileItem) × (file_query db' (bytes "usr") (bytes "a") ≡ some f) × (f.node ≡ 0)
migrate_file-owns_example =
    migrate_file-owns disk false (λ p. true) (dir_at (one_dir 1) 0) 0 one_file 0
      (unfold init in omega arith) refl
