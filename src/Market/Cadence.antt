-- ===== src/Market/Cadence.antt =====
-- crates/app-core/src/market/realm.rs, `RealmCadence`: when a realm is asked again. `Polls` is about
-- runs of requests.
pub mod Defs
pub mod Polls
