-- ===== src/Sched.antt =====
-- internal/sched: which jobs may run, what they are waiting for, and what moves them.
pub mod Pool
pub mod Queue
pub mod Doors
pub mod Ledger
pub mod World
pub mod Render
