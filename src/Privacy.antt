-- ===== src/Privacy.antt =====
-- include/contextsnap/privacy and src/privacy: what may be stored.
pub mod Glob
pub mod Rules
pub mod Sanitizer
mod Tests
pub mod Url
