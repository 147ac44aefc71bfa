-- ===== src/Market/Depth.antt =====
-- crates/app-core/src/market/depth.rs: the supply of a market at one instant. `Defs` is the program,
-- `Upto` and
-- `Merged` are about how much is offered up to a price, `Cheapest` about what it costs to buy, and `Bands`
-- about the archived curve.
pub mod Defs
pub mod Fill
pub mod Curve
pub mod Upto
pub mod Merged
pub mod Cheapest
pub mod Positions
pub mod Bands
