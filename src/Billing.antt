-- ===== src/Billing.antt =====
-- apps/tracker/lib/domain/billing: the structured billing input of a month.
pub mod Charge
pub mod Month
pub mod Entries
mod Tests
