-- ===== src/Generation.antt =====
-- src/generation.cpp and src/generation.hpp: a snapshot, or an overlay over a base snapshot.
pub mod Format
pub mod Ref
pub mod View
pub mod Check
pub mod Open
pub mod Find
pub mod Writer
pub mod Table
pub mod Search
