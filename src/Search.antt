-- ===== src/Search.antt =====
-- src/search.cpp: the search over the packages of a snapshot.
pub mod Query
pub mod Scan
pub mod Hits
pub mod Exact
