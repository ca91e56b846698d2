-- ===== src/Resource.antt =====
-- internal/domain/resource: the envelope that every declarative object shares.
pub mod Meta
pub mod Condition
mod Examples
