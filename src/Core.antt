-- ===== src/Core.antt =====
-- The cross-cutting app: apps/core/.
mod Tests
pub mod Pagination
pub mod Http
pub mod Exceptions
pub mod Cells
pub mod Cache
pub mod Aggregate
pub mod RequestId
