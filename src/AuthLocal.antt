-- ===== src/AuthLocal.antt =====
-- The crate dog-auth-local: passwords, and the hooks that hash them and keep them from clients.
pub mod Values
pub mod Protect
pub mod HashPassword
pub mod Strategy
mod Examples
