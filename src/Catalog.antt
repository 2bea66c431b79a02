-- ===== src/Catalog.antt =====
-- The parts of src/catalog.rs that accounts and groups carry: access sets, file grants, shapes.
pub mod Grants
pub mod Paths
