-- ===== src/Merge.antt =====
-- src/merge.cpp and src/merge.hpp: the packages of the previous generation and those that have
-- changed, merged into the input of the next one.
pub mod Names
pub mod Candidate
pub mod Inputs
