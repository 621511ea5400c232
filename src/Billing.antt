-- ===== src/Billing.antt =====
-- The pay-per-use billing check that runs before every route (src/middleware/billing-402.ts), with
-- its warnings (src/middleware/warn-throttle.ts) and prices (src/billing/chain_query.ts).
pub mod Throttle
pub mod Classify
pub mod Pricing
pub mod Payer
pub mod Check
mod Tests
