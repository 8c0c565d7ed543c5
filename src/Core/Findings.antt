-- ===== src/Core/Findings.antt =====
-- backend/samfscon/core/findings.py: what is worth telling about a server, by rules on data that was
-- read before. A value of evidence that is `None` stays in the evidence as `null`.
pub mod Types
pub mod Stored
pub mod Masks
pub mod Hosts
pub mod Management
pub mod Connection
pub mod Options
pub mod Paths
pub mod Ids
pub mod Evaluate
