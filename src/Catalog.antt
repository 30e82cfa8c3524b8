-- ===== src/Catalog.antt =====
-- The types of resources and the attributes that each type asks for (app/domain/catalog).
pub mod Definition
pub mod Types
pub mod Rows
