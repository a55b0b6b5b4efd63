-- ===== src/Lib.antt =====
-- The package keeper of the core image, apk-tools/src: a model of its logic and what it satisfies.
--
-- The program installs packages into a root file system. The parts modelled here are those that
-- give its texts a meaning, and that its database and solver are built on:
--
-- * Version (apk-tools/src/version.c): `get_token` and `next_token` take a version string apart;
--   `validate` and `compare_blob` are the loops of `apk_version_validate` and
--   `apk_version_compare_blob`. Version/Compare has the loops, Version/Progress the measure by
--   which they end, Version/Order the laws of the comparison.
-- * Blob (apk-tools/src/blob.c, apk_blob.h): Blob/Slices has the functions that cut, compare and
--   hash, Blob/Split what splitting does, Blob/Segments
--   what callbacks over segments keep, Blob/Order the order of blobs, Blob/Cursor the output
--   buffers and `apk_blob_push_blob`, and Blob/Hex, Blob/Base64, Blob/Number and Blob/Checksum one
--   text format each, its writer and its reader.
-- * Hash (apk-tools/src/hash.c, apk_hash.h): tables with chains, over any type of items.
-- * Package (apk-tools/src/package.c): Package/Dependency has the dependencies: `dep_from_blob` and
--   `deps_parse` read them, with the splitting of Blob and the validation of Version; `push_dep` and
--   `deps_write` write them into the buffers of Blob. Package/Dependency/Text, Write, Parse and Array
--   have the proofs.
--   Package/Names has the names of package files and of scripts, Package/Info the fields of a package
--   and the reading of index entries, Package/Marks what that does to the marks of the database,
--   Package/Installed the list of installed packages, and Package/Index the writing of entries and
--   the lines of `.PKGINFO`.
-- * Sign (apk-tools/src/package.c, the functions `apk_sign_ctx_*`): the context that checks an archive
--   while it is read. Sign has the files of the archive, Sign/Step the parts of its stream, Sign/Run
--   and Sign/Safety runs of any calls, Sign/Stages the order of the parts and Sign/Checks the end of
--   the control part.
--   It cuts lines with Blob and keeps checksums of Blob; Package/Index hands lines on to it.
-- * Solver (apk-tools/src/state.c, apk_state.h): the names of a solution and how a dependency prunes
--   their candidates. Solver/Lock has `apk_state_lock_name` and all that it calls, Solver/Clean
--   `apk_state_autoclean`, Solver/Commit `apk_state_commit`. Solver/Weight has the measure by which
--   their recursion ends, Solver/Prune, Pick, Broken, Ends, Calls and Total what each of them does to
--   it,
--   Solver/Candidates what pruning leaves, Solver/Count and Apply the loops of the commit, and
--   Solver/Headings the words shown for the changes. Versions are compared by Version.
-- * Archive (apk-tools/src/archive.c): the records of tar archives and their fields. Archive/Entry has
--   the stream of one entry and the callback that reads it, Archive/Info what a record says of its
--   entry, Archive/Parse `apk_tar_parse`, Archive/Write `apk_tar_write_entry`. Archive/Skips,
--   Position and Finish are about where the parse stands and that it ends, Archive/Octal, Layout,
--   Back and Overrun about what is read back of a record, and Archive/Written about where a written
--   entry ends. Numbers are read by Blob.
-- * Database (apk-tools/src/database.c, apk_database.h): what is known of packages and what is
--   installed. Database/Names has the names and Database/Packages the packages, with what depends on a
--   name; Database/Names/Table, Links and Merge are about them. Database/Dirs has the directories with
--   their references, Dirs/Tree, Hung and Ends how they hang together, Dirs/Balance and Release the
--   giving back of references. Database/Files has the files, Migrate and Purge what becomes of them
--   when packages are installed and removed, and Owned, Protected and Claimed what is kept then.
--   Database/Repos has the choice of a repository, Repos/Add the adding of one, Repos/Choice and Added
--   what they give. Database/Fdb has the lines of the installed database. All tables are those
--   of Hash, filed under the hashes of Blob; Database/Keys has the laws of those whose keys are blobs.
--   Packages carry the installations of Package/Installed.
-- * Prelude has what the parts share; Tests has runs, and the theorems at concrete inputs.
--
-- Representation. A blob that is only read is the list of its bytes, each below 256, and `none` is
-- NULL. An output blob is a `Cursor`: the memory of its buffer, the offset of `ptr` and `len`. A
-- reader that may run past its blob returns `fault` there. An `int` is of type ℤ; the decimal numbers
-- of versions wrap at 2^32, where C leaves the result open, and the unsigned numbers of
-- `apk_blob_pull_uint` wrap as in C. Lengths are below 2^31, so that the loop counters do not wrap. A
-- `char` is signed. The one `struct apk_name` of each name stands for the name's bytes, since the
-- database keeps one for each.
--
-- Loops. A loop over bytes recurs on the list. The two loops over tokens take twice the length of
-- the versions and a little more as fuel: a call of `get_token` skips a byte or goes from a digit to
-- a letter, which skips one next. The digits of a number have 64 rounds, the size of the buffer that
-- they are stored in, and a 32-bit value has at most 32.
--
-- The recursion of `apk_state_lock_name` takes as fuel twice the number of names: a name that is
-- written to goes from undecided to locked with a package to locked without one, or stays, and each
-- call inside another has moved one. The loop of `apk_state_commit` that counts takes a round for each
-- change there is and for each that this measure still allows to be added.
--
-- `apk_tar_parse` takes a round for each byte of the stream, and one more; each round but the last
-- takes 512 bytes.
--
-- `apk_db_dir_get` and `apk_db_dir_unref` go from a directory to its parent, whose name is shorter:
-- their fuel is one more than the length of the name.
--
-- Parameters. Objects of the database stand by their nodes, the places in memory where they were
-- made, so that what one part changes another sees. `apk_db_add_repository` works on the record `World`, with the files of the cache and of repositories and
-- with the loading of an index; the theorems name what they ask of them. The files on disk are the
-- record `FileSystem`. Removed directories are listed in `unlinked`. A new file goes to the end of its
-- instance, where the callers keep their position. `apk_db_select_repo` is a field of the database that the
-- solver reads, and what
-- `apk_db_install_pkg`, `apk_db_run_triggers` and `apk_db_write_config` do to the disk is the record
-- `Disk`, of which the theorems ask nothing. OpenSSL, with the directory of keys, is the record `Evp`,
-- whose operations the theorems ask nothing of. The stream that a tar archive is read from is its
-- bytes and the error that a read behind them returns; a callback is a `Reader`, which asks for bytes
-- and goes on with them, in any way that comes to an end; the digest of a file is a function, and
-- what `apk_resolve_uid` and `apk_resolve_gid` of io.c make of user and group names is the record
-- `IdCache`. What the unset buffer for a digest holds is `stack`, and the streams that are written to
-- are the functions `put` and `write`.
--
-- Not modelled: allocation failure, memory that is freed, running scripts, the output of the solver
-- and its `apk_state_print_errors`, the extraction of files, the entries of
-- a package that is installed, `apk_db_index_read` and `apk_db_install_pkg`, which drive the parts of
-- the database, opening, locking and writing the database, triggers, downloads, streams
-- and the commands, and all that is not the package keeper. The hash of a checksum is taken in the
-- order of a little-endian machine. A byte of a digest info's size is taken in the order of a
-- little-endian machine. A long name whose stream ends in it is as long as what was read; no entry
-- follows then. A long name of negative size has no memory to be written to, and ends the parse as a
-- write outside of it. The names of files in the database are below 64 KiB, the range of `namelen`.
pub mod Prelude
pub mod Version
pub mod Blob
pub mod Hash
pub mod Sign
pub mod Package
pub mod Solver
pub mod Archive
pub mod Database
mod Tests
