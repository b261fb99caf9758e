-- ===== src/Auth.antt =====
-- The crate dog-auth: authentication by strategies, and the hooks that require it.
pub mod Bearer
pub mod Core
pub mod Service
pub mod Hooks
pub mod Laws
pub mod Claims
