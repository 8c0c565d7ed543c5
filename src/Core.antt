-- ===== src/Core.antt =====
-- backend/samfscon/core: the helpers that every part of the program uses.
pub mod Clock
pub mod RateLimiter
pub mod TtlCache
pub mod Executor
pub mod Findings
pub mod Errors
