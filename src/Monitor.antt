-- ===== src/Monitor.antt =====
-- The watched-folder monitor: droid_web_display/transfers/monitor.py.
pub mod Types
pub mod Config
pub mod Observe
pub mod Scan
pub mod Reconcile
pub mod Trim
pub mod Service
pub mod Marks
pub mod Baseline
pub mod Bounce
pub mod Streak
pub mod Bounds
pub mod Capacity
pub mod Careful
pub mod Rounds
mod Tests
