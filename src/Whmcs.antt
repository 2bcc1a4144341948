-- ===== src/Whmcs.antt =====
-- The boundary to WHMCS: apps/whmcs/.
pub mod Form
pub mod Normalizers
pub mod Money
pub mod Dates
pub mod Flatten
pub mod Config
pub mod Actions
pub mod Transport
pub mod Client
pub mod Attachments
pub mod Services
pub mod Live
mod Tests
