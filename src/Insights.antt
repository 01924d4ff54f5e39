-- ===== src/Insights.antt =====
-- services/insights-service: the exclusion buffer of the ingestion.
pub mod Buffer
