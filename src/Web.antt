-- ===== src/Web.antt =====
-- crates/app-web/src: what the web application refuses, remembers and checks.
pub mod Throttle
pub mod Fragments
pub mod Csrf
pub mod Account
