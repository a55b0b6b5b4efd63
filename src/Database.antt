-- ===== src/Database.antt =====
-- apk-tools/src/database.c, apk_database.h: the database in memory.
pub mod Keys
pub mod Names
pub mod Packages
pub mod Links
pub mod Merge
pub mod Dirs
pub mod Repos
pub mod Files
pub mod Owned
pub mod Migrate
pub mod Protected
pub mod Purge
pub mod Claimed
pub mod Fdb
