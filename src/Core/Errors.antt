-- ===== src/Core/Errors.antt =====
-- backend/samfscon/core/errors.py: what a failure of Samba, RPC or Kerberos is told as.
pub mod Types
pub mod Tables
pub mod Patterns
pub mod Translate
