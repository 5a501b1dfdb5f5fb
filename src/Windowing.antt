-- ===== src/Windowing.antt =====
-- services/quant-engine/app/orchestration/windowing.py: the windows over which a replay is run.
-- A `datetime` is a number of microseconds since `datetime.min`; an addition or subtraction that
-- leaves the range of `datetime` raises `OverflowError`, here `err overflow`.
mod Clock
mod Defs
mod Generation
pub mod Tiling
pub mod Rolling
pub mod Anchored
pub mod Custom
mod Tests
pub use Clock.*
pub use Defs.*
pub use Generation.*
