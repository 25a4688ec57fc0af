-- ===== src/Storage/RoundTrip.antt =====
-- Snapshots survive the trip through JSON (src/storage/serialization.cpp).
pub mod Parts
pub mod Doubles
pub mod Windows
pub mod Snapshots
pub mod Printed
pub mod Depth
pub mod Text
pub mod Numerals
pub mod Times
pub mod Reports
