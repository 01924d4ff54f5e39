-- ===== src/Review.antt =====
-- services/review-service: the review queue of a creator, a position in their partition of
-- flagged.v1. Queue is the log, Cursors the one row that is stored, Window the scan of the log,
-- Handler the reading of the queue, Decisions a batch of decisions, Applying what a batch does.
pub mod Queue
pub mod Cursors
pub mod Window
pub mod Idem
pub mod Handler
pub mod Decisions
pub mod Applying
