-- ===== src/Auth.antt =====
-- The sessions of the administration: daemon/src/auth.
pub mod Token
pub mod Session
pub mod Authorized
pub mod State
pub mod Rotation
pub mod Login
pub mod Granted
