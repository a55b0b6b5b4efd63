-- ===== src/Database/Dirs.antt =====
-- apk-tools/src/database.c, apk_database.h: the directories of the database, with their references.
pub mod Balance
pub mod Tree
pub mod Hung
pub mod Release
pub mod Ends
use Prim.Native.Nat.{bit_or, bit_and}
use arianna_method_anchor_pr.Prelude.{
  ℕ, zero, suc, ◌+◌, ◌-◌, ◌%◌, ◌^◌, Bool, true, false, Option, none, some, List, [], ◌∷◌, ◌++◌, ltb,
  ◌==◌, if◌then◌else◌, length, take, get_or, set, but_last_of, pos, int_eq,
}
use arianna_method_anchor_pr.Blob.Slices.{hash, ends_with, rsplit, c_string, compare}
use arianna_method_anchor_pr.Hash.{Hash, Ops, get, get_hashed, insert_hashed}
use arianna_method_anchor_pr.Database.Keys.{keyed}

-- APK_DBDIRF_PROTECTED, APK_DBDIRF_SYMLINKS_ONLY, APK_DBDIRF_MODIFIED
abbrev pub protected : ℕ
protected = 1

abbrev pub symlinks_only : ℕ
symlinks_only = 2

abbrev pub dir_modified : ℕ
dir_modified = 4

-- What the table reads of a `struct apk_db_dir`; `node` stands for its address.
pub record DirItem : Type 0 where
  pub node : ℕ
  pub text : List ℕ

-- `struct apk_db_dir`; the parent stands by its node.
pub record Dir : Type 0 where
  pub parent : Option ℕ
  pub refs : ℕ
  pub flags : ℕ
  pub name : List ℕ
  pub hash : ℕ

-- `installed.dirs` and `stats.dirs`, the memory of the directories by node, the protected paths, and
-- the names that were passed to `unlinkat`.
pub record Dirs : Type 0 where
  pub table : Hash DirItem
  pub dirs : List Dir
  pub count : ℕ
  pub protected_paths : List (List ℕ)
  pub unlinked : List (List ℕ)

-- `dir_hash_ops`
abbrev pub dir_ops : Ops (List ℕ) DirItem
dir_ops = keyed (λ d. d.text) hash

abbrev pub no_dir : Dir
no_dir = record { parent = none; refs = 0; flags = 0; name = []; hash = 0 }

abbrev pub dir_at : Dirs → ℕ → Dir
dir_at db i = get_or db.dirs i no_dir

abbrev pub put_dir : Dirs → ℕ → Dir → Dirs
put_dir db i d = record db { dirs = set db.dirs i d }

-- `apk_db_dir_ref`
unfoldable pub dir_ref : Dirs → ℕ → Dirs
dir_ref db i = let d = dir_at db i in put_dir db i (record d { refs = (d.refs + 1) % 2 ^ 16 })

-- `--` on an `unsigned short`.
unfoldable pub lowered : ℕ → ℕ
lowered refs = (refs + (2 ^ 16 - 1)) % 2 ^ 16

-- The database after the last reference to the directory `i` was given back, which stays in the table.
unfoldable pub gone : Bool → Dirs → ℕ → Dirs
gone allow_rmdir db i = record (put_dir db i (record (dir_at db i) { refs = 0 })) {
  count = (db.count + (2 ^ 32 - 1)) % 2 ^ 32;
  unlinked = if allow_rmdir then db.unlinked ++ (dir_at db i).name ∷ [] else db.unlinked;
}

-- The call for the parent, unless it is NULL.
abbrev pub unref_parent : (Dirs → ℕ → Dirs) → Option ℕ → Dirs → Dirs
unref_parent up none db = db
unref_parent up (some p) db = up db p

-- What follows the decrement to `refs`.
unfoldable pub unref_to : (Dirs → ℕ → Dirs) → Bool → Dirs → ℕ → ℕ → Dirs
unfolding gone
unref_to up allow_rmdir db i (suc n) = put_dir db i (record (dir_at db i) { refs = suc n })
unref_to up allow_rmdir db i zero = unref_parent up (dir_at db i).parent (gone allow_rmdir db i)

-- `apk_db_dir_unref`, which goes up to the parents. Their names get shorter, so that a fuel above the
-- length of the name is enough.
unfoldable pub unref_loop : ℕ → Bool → Dirs → ℕ → Dirs
unfolding unref_to lowered
unref_loop zero allow_rmdir db i = db
unref_loop (suc fuel) allow_rmdir db i =
    unref_to (unref_loop fuel allow_rmdir) allow_rmdir db i (lowered (dir_at db i).refs)

unfoldable pub dir_unref : Bool → Dirs → ℕ → Dirs
unfolding unref_loop
dir_unref allow_rmdir db i = unref_loop (suc (length (dir_at db i).name)) allow_rmdir db i

-- `apk_db_dir_query`
unfoldable pub dir_query : Dirs → List ℕ → Option DirItem
dir_query db name = get dir_ops db.table name

-- The loop over the marks in front of a protected path: the flags, and the path behind them.
unfoldable pub path_marks : ℕ → List ℕ → ℕ × List ℕ
path_marks flags [] = (flags, [])
path_marks flags (c ∷ s) =
    if c == b'-'
    then path_marks (bit_and flags 252) s
    else if c == b'*'
    then path_marks (bit_or flags (symlinks_only + protected)) s
    else (flags, c ∷ s)

-- The loop over the protected paths.
unfoldable pub path_flags : List (List ℕ) → List ℕ → ℕ → ℕ
unfolding path_marks compare
path_flags [] name flags = flags
path_flags (p ∷ ps) name flags =
    let (marked, path) = path_marks (bit_or flags protected) p in
    path_flags ps name (if int_eq (compare path (c_string name)) (pos 0) then marked else flags)

abbrev pub without_last : List ℕ → List ℕ
without_last [] = []
without_last (c ∷ s) = but_last_of c s

-- A slash at the end is dropped.
unfoldable pub stripped : List ℕ → List ℕ
unfolding ends_with but_last_of
stripped s = if ends_with b'/' s then without_last s else s

-- The name of the parent of a directory with a name.
unfoldable pub parent_name : List ℕ → List ℕ
unfolding rsplit
parent_name s = elim (rsplit s b'/') [ some (l, r) ↦ l | none ↦ [] ]

-- The key of a directory in the table: as much of its name as `namelen`, an `unsigned short`, counts.
abbrev pub dir_key : List ℕ → List ℕ
dir_key name = take (length name % 2 ^ 16) name

-- A new directory at the end of memory and in the table, before its parent is looked for.
unfoldable pub add_dir : Dirs → List ℕ → ℕ → Dirs
add_dir db name hash = record db {
  table =
      insert_hashed dir_ops db.table (record { node = length db.dirs; text = dir_key name }) hash;
  dirs = db.dirs ++ record { parent = none; refs = 1; flags = 0; name = name; hash = hash } ∷ [];
  count = (db.count + 1) % 2 ^ 32;
}

-- The parent, and the flags from it and from the protected paths.
unfoldable pub settle_dir : Dirs → ℕ → Option ℕ → Dirs
unfolding path_flags
settle_dir db i parent =
    let d = dir_at db i in
    let flags : ℕ = elim parent [ none ↦ d.flags | some p ↦ (dir_at db p).flags ] in
    put_dir db i (record d { parent = parent; flags = path_flags db.protected_paths d.name flags })

-- What follows the entry into the table, where `get` is the call for the parent.
unfoldable pub hang : (Dirs → List ℕ → ℕ × Dirs) → Dirs → ℕ → List ℕ → Dirs
hang get db i [] = settle_dir db i none
hang get db i (c ∷ s) = let (p, db') = get db (parent_name (c ∷ s)) in settle_dir db' i (some p)

-- `apk_db_dir_get` on a name: each call for a parent has a shorter one, so that a fuel above the
-- length of the name is enough.
unfoldable pub get_loop : ℕ → Dirs → List ℕ → ℕ × Dirs
get_loop zero db name = (0, db)
get_loop (suc fuel) db name =
    let hash = hash name in
    let name = stripped name in
    elim (get_hashed dir_ops db.table name hash) [
      | some d ↦ (d.node, dir_ref db d.node)
      | none ↦ (length db.dirs, hang (get_loop fuel) (add_dir db name hash) (length db.dirs) name)
    ]

unfoldable pub dir_get : Dirs → List ℕ → ℕ × Dirs
unfolding get_loop
dir_get db name = get_loop (suc (length name)) db name
