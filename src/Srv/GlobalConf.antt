-- ===== src/Srv/GlobalConf.antt =====
-- backend/samfscon/srv/globalconf.py: the options of the section `[global]`.
pub mod Types
pub mod Catalogue
pub mod Dialect
pub mod Validate
pub mod Hosts
pub mod HostsCheck
pub mod Live
pub mod Write
