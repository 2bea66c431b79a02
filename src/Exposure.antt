-- ===== src/Exposure.antt =====
-- The exposure audit of src/exposure: who can reach what.
pub mod Acl
pub mod Access
pub mod Reach
pub mod Scope
pub mod Mounts
pub mod Walk
