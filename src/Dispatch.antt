-- ===== src/Dispatch.antt =====
-- The dispatcher (orchestrator/dispatcher.py), by what it does: whether an issue qualifies, the
-- launch of its run, the poll over all repositories, and the reaping of runs that ended.
pub mod Trigger
pub mod TaskId
pub mod Launch
pub mod Poll
pub mod Reap
