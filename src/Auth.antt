-- ===== src/Auth.antt =====
-- backend/samfscon/auth: the throttle of sign-ins, the store of sessions, and the file of the Kerberos
-- library.
pub mod Throttle
pub mod Store
pub mod Krb5
