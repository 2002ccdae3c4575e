-- ===== src/Billing.antt =====
-- Metering of running instances (services/main-api/internal/billing).
pub mod Rates
pub mod Worker
pub mod Charges
pub mod Sweep
