-- ===== src/Blob.antt =====
-- apk-tools/src/blob.c: slices of bytes, and the cursors that write and read them.
pub mod Slices
pub mod Split
pub mod Segments
pub mod Order
pub mod Cursor
pub mod Hex
pub mod Base64
pub mod Number
pub mod Checksum
