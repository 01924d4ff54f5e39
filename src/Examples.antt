-- ===== src/Examples.antt =====
-- The theorems at concrete inputs: a service with one policy, a breaker, a ledger, a document, a
-- partition, a ring of instances, a review queue, ids, an exclusion buffer.
mod Fixtures
mod Pipelines
mod Services
mod Breakers
mod Batches
mod Policies
mod Buffers
mod Partitions
mod Rings
mod Reviews
mod Ids
mod Texts
mod Ledgers
