-- ===== src/Kafka.antt =====
-- pkg/kafkax: how the records of a partition are spread over workers and committed.
pub mod Keyed
