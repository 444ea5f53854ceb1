-- ===== src/Scrcpy.antt =====
-- droid_web_display/models.py and droid_web_display/scrcpy: session options, the session manager
-- and its readers.
pub mod Options
pub mod Command
pub mod Understood
pub mod Readback
pub mod Arguments
pub mod Session
pub mod Manager
pub mod Control
pub mod Steps
pub mod Invariant
pub mod Soundness
pub mod Exclusive
pub mod Retention
pub mod Race
mod Tests
