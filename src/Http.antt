-- ===== src/Http.antt =====
-- The server's HTTP text, src/http.cpp.
pub mod Text
pub mod Response
pub mod Request
