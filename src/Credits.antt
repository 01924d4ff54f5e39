-- ===== src/Credits.antt =====
-- services/credits-service: the ledger of credits.
pub mod Ledger
pub mod UsageConsumer
