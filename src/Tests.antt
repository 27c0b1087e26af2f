-- ===== src/Tests.antt =====
-- Runs of the model on concrete inputs, and each result applied where its hypotheses hold.
pub mod Contents
pub mod Dispatches
pub mod Downloads
pub mod Jobs
pub mod Queues
pub mod Records
