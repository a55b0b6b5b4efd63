-- ===== src/Database/Repos/Add.antt =====
-- apk-tools/src/database.c: `apk_db_add_repository`.
use Prim.Native.Nat.{bit_or}
use arianna_method_anchor_pr.Prelude.{
  ℕ, ◌+◌, ◌^◌, Bool, true, false, Option, none, some, List, [], ◌∷◌, leb, ltb, ◌==◌, if◌then◌else◌,
  set, replicate, ℤ, pos, negsuc, int_eq, bytes,
}
use arianna_method_anchor_pr.Blob.Slices.{c_string}
use arianna_method_anchor_pr.Blob.Cursor.{buffer, pushed}
use arianna_method_anchor_pr.Blob.Hex.{Access, ok, fault}
use arianna_method_anchor_pr.Blob.Checksum.{Checksum}
use arianna_method_anchor_pr.Database.Repos.{
  Repository, Repos, max_repos, no_csum, format_index, opened_path,
}

-- What is called: `apk_url_local_file`, the checksum of a text, `apk_repository_update`, whether a
-- file of the cache or of a repository can be opened, and `load_index`. `S` is the rest of the
-- database and the files.
pub record World (S : Type 0) : Type 0 where
  pub is_local : List ℕ → Bool
  pub checksum : List ℕ → Checksum
  pub update : Repository → S → S
  pub in_cache : S → List ℕ → Bool
  pub in_repository : S → List ℕ → Bool
  pub load_index : Bool → ℕ → S → ℤ × S

-- What can be read: a package index, of which kind, or nothing.
pub data Index : Type 0 where
  no_index : Index
  index : Bool → Index

-- `BIT(r)` for the bits of an `unsigned int`; the shift is undefined otherwise.
abbrev pub bit_of : ℤ → Access ℕ
bit_of (pos n) = if ltb n 32 then ok (2 ^ n) else fault
bit_of (negsuc n) = fault

-- `db->bad_repos |= BIT(r)`, where `r` is not 0.
unfoldable pub mark_bad : ℤ → Repos → Access Repos
mark_bad r db = elim (bit_of r) [
  | ok b ↦ ok (record db { bad_repos = bit_or db.bad_repos b })
  | fault ↦ fault
]

-- A path that is not NULL, of a file that can be opened.
abbrev pub opens : (List ℕ → Bool) → Option (List ℕ) → Bool
opens can none = false
opens can (some t) = can t

-- The first of two names is that of an archive.
abbrev pub pick_index : Bool → Bool → Index
pick_index archive plain = if archive then index true else if plain then index false else no_index

-- The name of an index in the cache, in the buffer of PATH_MAX bytes.
unfoldable pub cached_name : Repository → ℕ → Option (List ℕ)
unfolding format_index pushed
cached_name repo ver = pushed 4096 (format_index (buffer (replicate 4096 0)) repo ver)

unfoldable pub cached_index : {S : Type 0} → World S → S → Repository → Index
cached_index w s repo =
    pick_index (opens (w.in_cache s) (cached_name repo 0))
      (opens (w.in_cache s) (cached_name repo 1))

unfoldable pub local_index : {S : Type 0} → World S → Bool → S → Repository → Index
local_index w no_network s repo =
    pick_index (opens (w.in_repository s) (opened_path no_network repo (bytes "APKINDEX.tar.gz")))
      (opens (w.in_repository s) (opened_path no_network repo (bytes "APK_INDEX.gz")))

-- The loading of the index of the repository `r`: ENOENT is 2.
unfoldable pub load : {S : Type 0} → World S → Index → ℕ → S → ℤ × S
load w no_index r s = (negsuc 1, s)
load w (index targz) r s = w.load_index targz r s

-- The end of the call.
unfoldable pub loaded : {S : Type 0} → Repos → ℤ × S → Access (ℤ × Repos × S)
unfolding mark_bad
loaded db (r, s) =
    if int_eq r (pos 0)
    then ok (pos 0, db, s)
    else elim (mark_bad r db) [ ok db' ↦ ok (pos 0, db', s) | fault ↦ fault ]

module _ {S : Type 0} (w : World S) (no_network update_cache : Bool) where
  -- The new entry, and the index that can be read for it.
  unfoldable pub place : Repos → S → List ℕ → Repos × S × Index
  place db s repository =
      let r = db.num_repos in
      let url = c_string repository in
      if w.is_local url
      then (let repo : Repository = record { url = url; csum = no_csum; description = none } in
          (
            record db {
              repos = set db.repos r repo;
              num_repos = r + 1;
              local_repos = bit_or db.local_repos (2 ^ r);
            },
            s,
            local_index w no_network s repo,
          ))
      else (let repo : Repository = record {
        url = url;
        csum = w.checksum repository;
        description = none;
      } in
          let s' = if update_cache then w.update repo s else s in
          (
            record db { repos = set db.repos r repo; num_repos = r + 1 },
            s',
            cached_index w s' repo,
          ))

  -- What follows the guards.
  unfoldable pub new_repository : Repos → S → List ℕ → Access (ℤ × Repos × S)
  new_repository db s repository =
      let (db', s', i) = place db s repository in loaded db' (load w i db.num_repos s')

  -- `apk_db_add_repository`, for a text that is not NULL.
  unfoldable pub add_repository : Repos → S → List ℕ → Access (ℤ × Repos × S)
  add_repository db s [] = ok (pos 0, db, s)
  add_repository db s (c ∷ t) =
      if c == b'#'
      then ok (pos 0, db, s)
      else if leb max_repos db.num_repos
      then ok (negsuc 0, db, s)
      else new_repository db s (c ∷ t)
