-- ===== src/Tasks/Ids.antt =====
-- `TaskId` (crap_os/src/task_scheduler/task.rs): a slot of the task table with its generation.
use crap_os.Base.{ℕ, Bool, ◌&&◌, ◌==◌}

pub record TaskId : Type 0 where
  pub slot_index : ℕ
  pub slot_generation : ℕ

abbrev pub task_id : ℕ → ℕ → TaskId
task_id i g = record { slot_index = i; slot_generation = g }

abbrev pub idle : TaskId
idle = task_id 0 0

-- The derived `PartialEq`.
abbrev pub same_id : TaskId → TaskId → Bool
same_id a b = (a.slot_index == b.slot_index) && (a.slot_generation == b.slot_generation)
