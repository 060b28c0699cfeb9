-- ===== src/Snapshot.antt =====
-- src/snapshot.cpp and src/snapshot.hpp.
pub mod Bitmap
pub mod Block
pub mod Builder
pub mod Format
pub mod Writer
pub mod Reader
