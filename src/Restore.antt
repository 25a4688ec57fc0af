-- ===== src/Restore.antt =====
-- src/core/restore_engine.cpp with its types of include/contextsnap/core/types.hpp: which windows
-- are restored, where they go, and the plan of steps. Carrying a plan out is not modelled.
pub mod Select
pub mod Place
pub mod Plan
mod Tests
