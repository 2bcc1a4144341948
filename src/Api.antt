-- ===== src/Api.antt =====
-- The REST API's views for customers: apps/core, apps/hosting, apps/billing, apps/support,
-- apps/accounts and apps/orders.
pub mod Scope
pub mod Responses
pub mod Hosting
pub mod Billing
pub mod Support
pub mod Endpoints
pub mod Serializers
pub mod Dashboard
pub mod Public
pub mod Health
pub mod Tests
