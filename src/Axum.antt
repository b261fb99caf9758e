-- ===== src/Axum.antt =====
-- The crate dog-axum: services over HTTP.
pub mod Params
pub mod Response
pub mod Rest
pub mod Guarded
mod Examples
