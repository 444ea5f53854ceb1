-- ===== src/Transfers.antt =====
-- The transfers of files between the PC and an Android device: droid_web_display/transfers.
pub mod Types
pub mod Names
pub mod Paths
pub mod Filenames
pub mod SafeNames
pub mod Runs
pub mod Execute
pub mod Queue
pub mod Destinations
pub mod Manager
pub mod Spool
pub mod Browse
pub mod Completed
pub mod Uploads
pub mod Downloads
pub mod Settled
pub mod Uploaded
pub mod Capacity
pub mod Calls
mod Tests
