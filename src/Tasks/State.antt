-- ===== src/Tasks/State.antt =====
-- Tasks, threads, the errors of the scheduler, and the state that its routines share.
use crap_os.Base.{ℕ, Option, List, Bool, ◌==◌}
use crap_os.Ring.{Ring}
use crap_os.Tasks.Ids.{TaskId}
use crap_os.Tasks.Sleep.{SleepQueue}

pub data TaskState : Type 0 where
  ready running blocked dying dead : TaskState

pub data ThreadState : Type 0 where
  active waiting dying dead : ThreadState

pub data SchedulerError : Type 0 where
  queue_full task_table_full unknown_task : SchedulerError

pub data ReaperError : Type 0 where
  reaper_queue_full tombstone_queue_full unknown_task : ReaperError

-- `thread` is the address that the weak reference holds. The stack's bytes are left out.
pub record Task : Type 0 where
  pub id : TaskId
  pub state : TaskState
  pub saved_rsp : ℕ
  pub kernel_stack_top : ℕ
  pub is_user_task : Bool
  pub cr3 : ℕ
  pub ticks_remaining : ℕ
  pub ticks_executed : ℕ
  pub thread : ℕ

-- The name and the owner of a thread are left out: nothing in the scheduler reads them.
pub record Thread : Type 0 where
  pub id : ℕ
  pub task_id : Option TaskId
  pub state : ThreadState

pub record TaskSlot : Type 0 where
  pub task : Option Task
  pub slot_generation : ℕ

-- `task_killer` is the one function that the kernel queues.
pub data SystemFunction : Type 0 where
  task_killer : SystemFunction

pub record SystemTask : Type 0 where
  pub function : SystemFunction
  pub func_arg : ℕ

-- The statics that the scheduler reads and writes, on the boot CPU.
pub record Kernel : Type 0 where
  -- `GLOBAL_SCHEDULER`
  pub tasks : List TaskSlot
  -- `CPU_SCHEDULER`, slot 0
  pub ready_queue : Ring TaskId
  pub current : TaskId
  -- `REAPER_QUEUE`, `TOMBSTONE_QUEUE`, `SYSTEM_TASK_QUEUE`, `SLEEP_QUEUE`
  pub reaper_queue : Ring (Option TaskId)
  pub tombstone_queue : Ring (Option TaskId)
  pub system_tasks : Ring (Option SystemTask)
  pub sleep_queue : SleepQueue
  -- the live threads, by address
  pub threads : ℕ → Option Thread
  -- `CPU_TICKS_REMAINING`, `CPU_FORCE_RESCHEDULE`, `SYS_FLAG_KERNEL_INIT_COMPLETE`, `TIMER_TICKS`
  pub cpu_ticks_remaining : ℕ
  pub force_reschedule : Bool
  pub kernel_init_complete : Bool
  pub timer_ticks : ℕ
  -- RSP0 of the task state segment
  pub kernel_stack : ℕ

-- The derived `PartialEq` of `TaskState`, on the discriminants.
abbrev pub state_code : TaskState → ℕ
state_code ready = 0
state_code running = 1
state_code blocked = 2
state_code dying = 3
state_code dead = 4

abbrev pub same_state : TaskState → TaskState → Bool
same_state a b = state_code a == state_code b
