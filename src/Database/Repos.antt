-- ===== src/Database/Repos.antt =====
-- apk-tools/src/database.c: the repositories, and which of them a package is taken from.
pub mod Choice
pub mod Add
pub mod Added
use Prim.Native.Nat.{bit_or, bit_and}
use arianna_method_anchor_pr.Prelude.{
  ℕ, zero, suc, ◌+◌, ◌-◌, ◌^◌, Bool, true, false, not, ◌&&◌, ◌||◌, Option, none, some, List, [],
  ◌∷◌, ◌++◌, ltb, leb, ◌==◌, if◌then◌else◌, take, set, replicate, ℤ, pos, negsuc, int_eq, bytes,
  bit_test, complement,
}
use arianna_method_anchor_pr.Blob.Slices.{cstr, ends_with, compare}
use arianna_method_anchor_pr.Blob.Cursor.{Cursor, buffer, push_blob}
use arianna_method_anchor_pr.Blob.Hex.{push_hexdump, Access, ok, fault}
use arianna_method_anchor_pr.Blob.Checksum.{Checksum}

-- APK_MAX_REPOS
abbrev pub max_repos : ℕ
max_repos = 32

-- `struct apk_repository`
pub record Repository : Type 0 where
  pub url : List ℕ
  pub csum : Checksum
  pub description : Option (List ℕ)

-- The fields of `struct apk_database` on repositories, with `max_repos` entries in `repos`.
pub record Repos : Type 0 where
  pub repos : List Repository
  pub num_repos : ℕ
  pub local_repos : ℕ
  pub bad_repos : ℕ

abbrev pub no_csum : Checksum
no_csum = record { data_bytes = replicate 20 0; kind = 0 }

-- `apk_repo_is_remote`
abbrev pub is_remote : Repository → Bool
is_remote repo = not (repo.csum.kind == 0)

-- `apk_cache_format_index` into a buffer.
unfoldable pub format_index : Option Cursor → Repository → ℕ → Option Cursor
unfolding push_blob push_hexdump
format_index to repo ver =
    let prefix = if ver == 0 then bytes "APKINDEX." else bytes "APK_INDEX." in
    let suffix = if ver == 0 then bytes ".tar.gz" else bytes ".gz" in
    push_blob (push_blob (push_hexdump (push_blob to prefix) (take 4 repo.csum.data_bytes)) suffix)
      (0 ∷ [])

-- The path that `apk_repo_file_open` writes into its buffer of PATH_MAX bytes, without an architecture.
abbrev pub file_path : Repository → List ℕ → List ℕ
file_path repo file =
    take 4095 (repo.url ++ ((if ends_with b'/' repo.url then [] else bytes "/") ++ file))

-- `apk_repo_file_open` without an architecture: the path it opens, or `none` for NULL before.
unfoldable pub opened_path : Bool → Repository → List ℕ → Option (List ℕ)
unfolding compare
opened_path no_network repo file =
    if no_network && is_remote repo
    then none
    else if int_eq (compare repo.url (bytes "cache")) (pos 0)
    then none
    else some (file_path repo file)

-- What `apk_db_select_repo` returns that is not NULL: the repository of the cache, or one of `repos`.
pub data Chosen : Type 0 where
  cache_repo : Chosen
  nth : ℕ → Chosen

-- The repositories that are looked through: local ones if there is one.
unfoldable pub usable : Repos → ℕ → ℕ
usable db repos =
    let good = bit_and repos (complement db.bad_repos) in
    let near = bit_and good db.local_repos in if near == 0 then good else near

-- The loop over the bits: the first that is set, or APK_MAX_REPOS.
unfoldable pub first_bit : ℕ → ℕ → ℕ → ℕ
first_bit zero repos i = i
first_bit (suc n) repos i =
    let rest = first_bit n repos (suc i) in if bit_test repos i then i else rest

-- `apk_db_select_repo` for the bits of a package; `cached` tells that it is in the cache.
unfoldable pub db_select_repo : Bool → Bool → Repos → ℕ → Option Chosen
unfolding first_bit
db_select_repo no_network cached db repos =
    let i = first_bit max_repos (usable db repos) 0 in
    if (leb max_repos i || (not (bit_test db.local_repos i) && no_network)) && not cached
    then none
    else if leb max_repos i
    then some cache_repo
    else some (nth i)
