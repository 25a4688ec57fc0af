-- ===== src/Matching.antt =====
-- include/contextsnap/core/matching.hpp and src/core/matching.cpp: which live window is which saved
-- window, and how an application is started again.
pub mod Text
pub mod Similarity
pub mod Assign
pub mod Launch
mod Tests
