-- ===== src/Job.antt =====
-- internal/job: one job's lifecycle, its four orthogonal axes, and the doors that move it.
pub mod Axes
pub mod Spine
pub mod Admissible
pub mod Error
pub mod Attempt
pub mod Record
pub mod Status
pub mod Repair
pub mod Step
pub mod Boundary
pub mod Verdicts
pub mod Refusals
