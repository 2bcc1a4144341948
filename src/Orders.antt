-- ===== src/Orders.antt =====
-- The orders app: apps/orders/.
pub mod Idempotency
pub mod Basket
pub mod Placement
pub mod Withdrawal
pub mod Live
mod Tests
