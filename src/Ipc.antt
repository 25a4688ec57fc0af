-- ===== src/Ipc.antt =====
-- include/contextsnap/ipc and src/ipc: the daemon's RPC contract.
pub mod Frame
pub mod Pump
pub mod Message
pub mod Session
mod Tests
