-- ===== src/Moderation.antt =====
-- services/moderation-service/internal/mod: the moderation cascade and its parts.
pub mod Publisher
pub mod PolicyCache
pub mod Classify
pub mod Batcher
pub mod Breaker
pub mod MemSampler
pub mod Match
pub mod Vector
pub mod RedisState
pub mod Pipeline
pub mod Service
pub mod Normalize
pub mod UsageAggregator
