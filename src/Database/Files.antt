-- ===== src/Database/Files.antt =====
-- apk-tools/src/database.c, apk_database.h: the files of the database and the packages that own them.
use arianna_method_anchor_pr.Prelude.{
  ℕ, ◌+◌, ◌%◌, ◌^◌, Option, none, some, List, [], ◌∷◌, ◌++◌, ◌==◌, if◌then◌else◌, length, get_or,
  set, ℤ, pos, int_eq,
}
use arianna_method_anchor_pr.Blob.Slices.{hash, hash_seed, compare, rsplit}
use arianna_method_anchor_pr.Blob.Checksum.{Checksum}
use arianna_method_anchor_pr.Hash.{Hash, Ops, get, get_hashed, insert_hashed}
use arianna_method_anchor_pr.Database.Repos.{no_csum}

-- `struct apk_db_file_hash_key`: the names of the directory and of the file.
abbrev pub Key : Type 0
Key = List ℕ × List ℕ

-- What the table reads of a `struct apk_db_file`, and of its directory, which never change.
pub record FileItem : Type 0 where
  pub node : ℕ
  pub dirname : List ℕ
  pub dir_hash : ℕ
  pub filename : List ℕ

-- `struct apk_db_file`; the directory instance stands by its node.
pub record File : Type 0 where
  pub diri : ℕ
  pub csum : Checksum
  pub name : List ℕ

-- `struct apk_db_dir_instance`: the package and the directory by their nodes, and the files of
-- `owned_files` in order.
pub record Diri : Type 0 where
  pub pkg : ℕ
  pub dir : ℕ
  pub mode : ℕ
  pub uid : ℕ
  pub gid : ℕ
  pub owned_files : List ℕ

-- `installed.files` and `stats.files`, and the memory of the files and the instances by node.
pub record Files : Type 0 where
  pub table : Hash FileItem
  pub files : List File
  pub diris : List Diri
  pub count : ℕ

-- `apk_db_file_hash_key`
unfoldable pub file_hash_key : Key → ℕ
unfolding hash hash_seed
file_hash_key (dirname, filename) = hash_seed filename (hash dirname)

-- `apk_db_file_hash_item`
unfoldable pub file_hash_item : FileItem → ℕ
unfolding hash_seed
file_hash_item f = hash_seed f.filename f.dir_hash

-- `apk_db_file_compare_item`
unfoldable pub file_compare_item : FileItem → Key → ℤ
unfolding compare
file_compare_item f (dirname, filename) =
    let r = compare filename f.filename in if int_eq r (pos 0) then compare dirname f.dirname else r

-- `file_hash_ops`; `get_key` and `compare` are NULL there, and are not called.
abbrev pub file_ops : Ops Key FileItem
file_ops = record {
  get_key = λ f. (f.dirname, f.filename);
  hash_key = file_hash_key;
  hash_item = some file_hash_item;
  compare = λ a b. pos 0;
  compare_item = some file_compare_item;
}

abbrev pub no_file : File
no_file = record { diri = 0; csum = no_csum; name = [] }

abbrev pub no_diri : Diri
no_diri = record { pkg = 0; dir = 0; mode = 0; uid = 0; gid = 0; owned_files = [] }

abbrev pub diri_at : Files → ℕ → Diri
diri_at db i = get_or db.diris i no_diri

abbrev pub file_at : Files → ℕ → File
file_at db i = get_or db.files i no_file

abbrev pub put_file : Files → ℕ → File → Files
put_file db i f = record db { files = set db.files i f }

-- `apk_db_file_query`
unfoldable pub file_query : Files → List ℕ → List ℕ → Option FileItem
file_query db dir name = get file_ops db.table (dir, name)

-- `apk_db_file_new`, at the end of the files of the instance.
unfoldable pub file_new : Files → ℕ → List ℕ → ℕ × Files
file_new db diri name =
    let i = length db.files in
    let d = diri_at db diri in
    (
      i,
      record db {
        files = db.files ++ record { diri = diri; csum = no_csum; name = name } ∷ [];
        diris = set db.diris diri (record d { owned_files = d.owned_files ++ i ∷ [] });
      },
    )

-- `apk_db_file_get` in an instance of the directory `dirname`, whose `hash` field is `dir_hash`.
unfoldable pub file_get : Files → ℕ → List ℕ → ℕ → List ℕ → ℕ × Files
file_get db diri dirname dir_hash name =
    let hash = hash_seed name dir_hash in
    elim (get_hashed file_ops db.table (dirname, name) hash) [
      | some f ↦ (f.node, db)
      | none ↦
          let (i, db') = file_new db diri name in
          let item : FileItem = record {
            node = i;
            dirname = dirname;
            dir_hash = dir_hash;
            filename = name;
          } in
          (
            i,
            record db' {
              table = insert_hashed file_ops db'.table item hash;
              count = (db'.count + 1) % 2 ^ 32;
            },
          )
    ]

-- A slash at the front is dropped.
abbrev pub rooted : List ℕ → List ℕ
rooted [] = []
rooted (c ∷ s) = if c == b'/' then s else c ∷ s

-- `apk_db_get_file_owner`
unfoldable pub file_owner : Files → List ℕ → Option ℕ
unfolding rsplit
file_owner db filename = elim (rsplit (rooted filename) b'/') [
  | none ↦ none
  | some (dir, name) ↦ elim (get file_ops db.table (dir, name)) [
    | none ↦ none
    | some f ↦ some (diri_at db (file_at db f.node).diri).pkg
  ]
]
