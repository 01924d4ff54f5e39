-- ===== src/Moderation/Pipeline.antt =====
-- services/moderation-service/internal/mod/pipeline.go: the cascade over one message, and the service
-- around it.
pub mod State
pub mod Gate
pub mod Stages
pub mod Cascade
pub mod Rules
pub mod Outage
pub mod Billing
pub mod Token
pub mod Outcomes
pub mod Accounting
