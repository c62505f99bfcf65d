-- ===== src/Tasks.antt =====
-- The task scheduler (crap_os/src/task_scheduler) on the boot CPU.
pub mod Ids
pub mod Sleep
pub mod State
pub mod Table
pub mod Outcome
pub mod Wake
pub mod Reaper
pub mod Switch
pub mod Timer
pub mod Create
pub mod Queues
