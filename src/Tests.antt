-- ===== src/Tests.antt =====
-- Runs of the model at inputs that can be followed in the source, and the theorems at such inputs.
mod Versions
mod Blobs
mod Tables
mod Signatures
mod Dependencies
mod Packages
mod Solutions
mod Archives
mod Databases
mod Directories
