-- ===== src/Scheduler/Soundness.antt =====
-- The invariant of the scheduler's table of jobs, kept by every request.
mod Table
mod Rows
mod Methods
mod Requests
pub use Table.*
pub use Rows.*
pub use Methods.*
pub use Requests.*
