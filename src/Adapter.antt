-- ===== src/Adapter.antt =====
-- services/provider-adapter: the sharding of segments over instances, the window of ids seen, the
-- opaque ids, and the reconnect delays.
pub mod Ring
pub mod Dedup
pub mod Base62
pub mod Opaque
pub mod Retry
pub mod Shard
