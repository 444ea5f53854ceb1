-- ===== src/Relay.antt =====
-- The bytes between a device and a browser: the reader and the channels of
-- droid_web_display/scrcpy/session.py, and droid_web_display/websocket/channels.py.
pub mod Stream
pub mod Prefixed
pub mod Restarted
pub mod Exact
pub mod Media
pub mod Delivered
pub mod Control
pub mod Messages
pub mod Forwarded
pub mod Channel
mod Tests
