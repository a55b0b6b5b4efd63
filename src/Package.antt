-- ===== src/Package.antt =====
-- apk-tools/src/package.c: packages, their names and their dependencies.
pub mod Dependency
pub mod Names
pub mod Installed
pub mod Info
pub mod Index
pub mod Marks
