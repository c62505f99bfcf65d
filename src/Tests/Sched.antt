-- ===== src/Tests/Sched.antt =====
-- A kernel with four tasks, and its queues.
use crap_os.Base.{
  zero, suc, get_elem?, get_elem?, ℕ, ◌≡◌, refl, none, some, List, [], ◌∷◌, true, false, arith,
  update,
}
use crap_os.Ring.{Ring, empty_ring}
use crap_os.Tasks.Ids.{TaskId, idle, task_id}
use crap_os.Tasks.Reaper.Cleanup.{Listed}
use crap_os.Tasks.Sleep.{SleepEntry, SleepQueue, empty_queue}
use crap_os.Tasks.Sleep.Refine.{Sleeps}
use crap_os.Tasks.State.{Kernel, Task, TaskSlot, TaskState, Thread, active, running}
use crap_os.Tasks.Switch.Pick.{Queued}

abbrev pub a_task : TaskId → TaskState → ℕ → Task
a_task id state rsp = record {
  id = id;
  state = state;
  saved_rsp = rsp;
  kernel_stack_top = 0x8000;
  is_user_task = false;
  cr3 = 0;
  ticks_remaining = 4;
  ticks_executed = 0;
  thread = 0x50;
}

abbrev pub a_slot : Task → TaskSlot
a_slot t = record { task = some t; slot_generation = t.id.slot_generation }

abbrev pub a_thread : Thread
a_thread = record { id = 1; task_id = some (task_id 2 0); state = active }

-- The idle task, a running task, and a task in the given state.
abbrev pub some_slots : TaskState → List TaskSlot
some_slots s =
    a_slot (a_task idle running 0x1000)
    ∷ a_slot (a_task (task_id 1 0) running 0)
    ∷ a_slot (a_task (task_id 2 0) s 0x3000)
    ∷ record { task = none; slot_generation = 5 }
    ∷ []

abbrev pub one_entry : {E : Type 0} → E → E → Ring E
one_entry e filler = record { slots = update (λ _. filler) 0 e; head = 0; tail = 1; queue_len = 1 }

abbrev pub some_kernel : TaskState → Kernel
some_kernel s = record {
  tasks = some_slots s;
  ready_queue = one_entry (task_id 2 0) idle;
  current = task_id 1 0;
  reaper_queue = one_entry (some (task_id 2 0)) none;
  tombstone_queue = one_entry (some (task_id 2 0)) none;
  system_tasks = empty_ring none;
  sleep_queue = empty_queue;
  threads = λ _. some a_thread;
  cpu_ticks_remaining = 4;
  force_reschedule = false;
  kernel_init_complete = true;
  timer_ticks = 0;
  kernel_stack = 0x8000;
}

pub one-Queued : Queued (one_entry (task_id 2 0) idle) (task_id 2 0 ∷ [])
one-Queued = record {
  head_bound = omega arith;
  tail_bound = omega arith;
  fits = omega arith;
  tail_at = refl;
  count = refl;
  entries = refl;
}

pub one-Listed : Listed (one_entry (some (task_id 2 0)) none) (task_id 2 0 ∷ [])
one-Listed = record {
  head_bound = omega arith;
  tail_bound = omega arith;
  fits = omega arith;
  tail_at = refl;
  count = refl;
  entries = refl;
}

-- One task sleeps, for one tick.
abbrev pub one_sleeper : SleepQueue
one_sleeper = record {
  entries = λ i. elim i [
    | zero ↦ some (record { delta_ticks = 1; task_id = task_id 2 0 })
    | suc _ ↦ none
  ];
  queue_len = 1;
}

abbrev pub sleeper : List SleepEntry
sleeper = record { delta_ticks = 1; task_id = task_id 2 0 } ∷ []

pub one-Sleeps : Sleeps one_sleeper sleeper
one-Sleeps = record { count = refl; fits = omega arith; slot = slot_at }
  where
    slot_at : (i : ℕ) → one_sleeper.entries i ≡ get_elem? sleeper i
    slot_at zero = refl
    slot_at (suc i) = refl
