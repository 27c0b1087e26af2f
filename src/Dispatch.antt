-- ===== src/Dispatch.antt =====
-- The dispatcher (internal/dispatch): the registry of jobs, and what is kept of them over a restart.
pub mod Occupy
pub mod Ports
pub mod Registry
pub mod Restart
pub mod Restore
pub mod Steps
pub mod Tick
pub mod Worker
