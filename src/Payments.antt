-- ===== src/Payments.antt =====
-- The payments app: apps/payments/.
pub mod Tests
pub mod Models
pub mod World
pub mod Zibal
pub mod Amount
pub mod Table
pub mod Start
pub mod Settle
pub mod Interleaving
pub mod Urls
pub mod Views
pub mod Reconcile
pub mod Live
