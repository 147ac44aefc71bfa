-- ===== src/Web/Account.antt =====
-- crates/app-core/src/auth.rs and crates/app-web/src/routes/account.rs: accounts and sessions. `Ports`
-- is what the store, the hasher and the source of tokens offer, `Defs` and `Visits` the program, `Login` and
-- `Register` are about those handlers, `Work` about how many passwords are hashed, `Return` about signing in after registering, and `Sessions`
-- about whom a session stands for.
pub mod Ports
pub mod Defs
pub mod Visits
pub mod Login
pub mod Work
pub mod Register
pub mod Return
pub mod Sessions
