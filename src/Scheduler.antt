-- ===== src/Scheduler.antt =====
-- The bounded job scheduler: services/quant-engine/app/services/scheduler.py over the class
-- SchedulerJobRepository of services/quant-engine/app/db/repositories.py.
mod Value
mod Job
mod Repository
mod Service
mod Execution
mod Worker
mod Commands
pub mod Redaction
pub mod Pending
pub mod Soundness
pub mod Leases
pub mod Transitions
pub mod Passes
mod Tests
pub use Value.*
pub use Job.*
pub use Repository.*
pub use Service.*
pub use Execution.*
pub use Worker.*
pub use Commands.*
