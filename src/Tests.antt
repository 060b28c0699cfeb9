-- ===== src/Tests.antt =====
-- The theorems at concrete inputs.
mod Three
mod Searching
mod Blocks
mod Sections
mod Queries
mod Overlay
mod Writing
mod Merging
mod Connecting
mod Requests
