-- ===== src/Lava.antt =====
-- The abstract domains, lava/include/lava.
pub mod Tristate
pub mod Sign
pub mod Bound
pub mod Interval
pub mod Backward
pub mod Zero
pub mod IntervalDomain
pub mod Constant
pub mod Product
pub mod UnitDomain
