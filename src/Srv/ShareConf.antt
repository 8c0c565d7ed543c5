-- ===== src/Srv/ShareConf.antt =====
-- backend/samfscon/srv/shareconf.py: the share options of smb.conf that srvsvc does not carry.
pub mod Types
pub mod Catalogue
pub mod Value
pub mod Validate
