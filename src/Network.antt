-- ===== src/Network.antt =====
-- droid_web_display/network_access.py: who may reach the server, and under which names.
pub mod Types
pub mod Config
pub mod Policy
pub mod Accepted
pub mod Admission
pub mod Firewall
pub mod Quoting
pub mod Origins
pub mod Store
pub mod Restored
pub mod Certificates
pub mod Issued
pub mod Interfaces
pub mod Toy
mod Tests
