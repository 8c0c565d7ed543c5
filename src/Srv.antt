-- ===== src/Srv.antt =====
-- backend/samfscon/srv: what the console does with a file server.
pub mod ShareConf
pub mod Acl
pub mod GlobalConf
pub mod Files
pub mod Access
pub mod Registry
