-- ===== src/Srv/Acl.antt =====
-- backend/samfscon/srv/acl.py: security descriptors as SDDL.
pub mod Masks
pub mod Rights
pub mod Meaning
pub mod Entry
pub mod Trustees
pub mod Parse
pub mod Write
