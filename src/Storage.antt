-- ===== src/Storage.antt =====
-- src/storage/serialization.cpp: snapshots as JSON.
pub mod Fields
pub mod Timestamps
pub mod ToJson
pub mod FromJson
pub mod Documents
pub mod Reports
pub mod RoundTrip
mod Tests
