-- ===== src/Shared.antt =====
-- The shared kernel of the domain (app/domain/shared).
pub mod Result
pub mod Time
pub mod Text
pub mod Values
pub mod Dicts
pub mod Optional
pub mod Names
pub mod Phone
pub mod Clock
