-- ===== src/Sync.antt =====
-- The client of the ADB sync protocol: droid_web_display/transfers/adb_sync.py.
pub mod Wire
pub mod Client
pub mod Roundtrip
pub mod Listing
mod Tests
