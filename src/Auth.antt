-- ===== src/Auth.antt =====
-- droid_web_display/auth.py: PIN authentication and trusted browser sessions.
pub mod Types
pub mod Rules
pub mod Store
pub mod Lockout
pub mod Service
pub mod Digests
pub mod Setup
pub mod Throttle
pub mod Guessing
pub mod Trail
pub mod Tokens
pub mod Revocation
pub mod Login
pub mod Single
pub mod Expired
pub mod Calls
pub mod Toy
mod Tests
