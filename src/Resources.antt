-- ===== src/Resources.antt =====
-- The resource aggregate: app/domain/resources.
pub mod Schedule
pub mod Rules
pub mod Entity
pub mod Rows
pub mod Pricing
