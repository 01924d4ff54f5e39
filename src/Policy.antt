-- ===== src/Policy.antt =====
-- services/policy-service: the documents that creators write, where they are kept, and which applies.
pub mod Validate
pub mod Scope
pub mod Store
pub mod Resolver
