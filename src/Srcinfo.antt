-- ===== src/Srcinfo.antt =====
-- The reader of .SRCINFO files, src/srcinfo.cpp.
pub mod Text
pub mod Key
pub mod Fields
pub mod Parse
pub mod Output
pub mod Fatal
pub mod Names
pub mod Report
