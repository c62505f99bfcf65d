-- ===== src/Tasks/Switch.antt =====
-- The choice of the next task, and the calls that give the CPU away.
pub mod Pick
pub mod Laws
use crap_os.Base.{
  ℕ, zero, suc, ◌+◌, ◌*◌, ◌%◌, ◌^◌, Bool, true, false, ◌&&◌, not, Option, none, some, Result, ok,
  err, if◌then◌else◌, ◌==◌,
}
use crap_os.Ring.{Ring, push, pop}
use crap_os.Tasks.Ids.{TaskId, idle, same_id}
use crap_os.Tasks.Outcome.{Outcome, done, panic, no_fuel, ◌>>=◌, unwrap}
use crap_os.Tasks.Reaper.{mark_dying, queue_task_reaper, or_same}
use crap_os.Tasks.Sleep.{insert}
use crap_os.Tasks.State.{
  TaskState, ThreadState, SchedulerError, Task, Kernel, same_state, ready, running, blocked,
  waiting,
}
use crap_os.Tasks.Table.{get_task, put_task, insert_task, is_some}
use crap_os.Tasks.Wake.{set_thread_state, enqueue}

abbrev pub task_quantum_ticks : ℕ
task_quantum_ticks = 4

abbrev pub with_state : TaskState → TaskId → Task → Kernel → Kernel
with_state s id t k = record k { tasks = put_task k.tasks id (record t { state = s }) }

unfoldable pub insert_and_queue_task :
    Task → Kernel → Outcome (Result SchedulerError TaskId × Kernel)
insert_and_queue_task t k = elim (insert_task t k.tasks) [
  | err e ↦ done (err e, k)
  | ok (id, slots) ↦ elim (enqueue id (record k { tasks = slots })) [
    | err _ ↦ panic
    | ok k' ↦ done (ok id, k')
  ]
]

-- The first loop of `schedule`: the first queued task that is ready, or the idle task.
unfoldable pub pick_next : ℕ → Kernel → Outcome (TaskId × Kernel)
pick_next zero k = no_fuel
pick_next (suc fuel) k =
    let (candidate, q) = pop 8 k.ready_queue in
    let k' = record k { ready_queue = q } in
    elim candidate [
      | none ↦ done (idle, k')
      | some id ↦
          let rest = pick_next fuel k' in
          elim (get_task k.tasks id) [
            | none ↦ rest
            | some t ↦
                if same_state t.state ready then done (id, with_state running id t k') else rest
          ]
    ]

-- The outgoing task goes back to the queue if it still runs. The idle task does so only while
-- the kernel initializes. A push on a full queue is dropped.
unfoldable pub requeue_outgoing : TaskId → Kernel → Kernel
requeue_outgoing id k = elim (get_task k.tasks id) [
  | none ↦ k
  | some t ↦
      if same_state t.state running
      then (let k' = with_state ready id t k in
          let queued = or_same k' (enqueue id k') in
          if same_id id idle && k.kernel_init_complete then k' else queued)
      else k
]

-- What `switch_to` gets: the task whose `saved_rsp` it writes, and what it loads.
pub record Switch : Type 0 where
  pub outgoing : TaskId
  pub new_rsp : ℕ
  pub new_cr3 : ℕ

-- `schedule` up to the switch: `none` is the early return.
unfoldable pub choose : Kernel → Outcome (Option Switch × Kernel)
choose k = do
  (next_id, k1) ← pick_next (k.ready_queue.queue_len + 1) k
  (let k2 = record (requeue_outgoing k.current k1) { current = next_id } in
      do
        next ← unwrap (get_task k2.tasks next_id)
        (let k3 = record k2 {
          kernel_stack = if next.is_user_task then next.kernel_stack_top else k2.kernel_stack;
          cpu_ticks_remaining = next.ticks_remaining;
        } in
            if is_some (get_task k2.tasks k.current) && not (next.saved_rsp == 0)
            then done (
              some (record { outgoing = k.current; new_rsp = next.saved_rsp; new_cr3 = next.cr3 }),
              k3,
            )
            else done (none, k3)))

-- The write of `switch_to` through the pointer into the outgoing task.
abbrev pub save_rsp : ℕ → TaskId → Kernel → Kernel
save_rsp rsp id k = elim (get_task k.tasks id) [
  | none ↦ k
  | some t ↦ record k { tasks = put_task k.tasks id (record t { saved_rsp = rsp }) }
]

-- `rsp` is the stack pointer at which the outgoing task is suspended.
unfoldable pub schedule : ℕ → Kernel → Outcome (Option Switch × Kernel)
schedule rsp k = do
  (switch?, k') ← choose k
  elim switch? [ none ↦ done (none, k') | some s ↦ done (some s, save_rsp rsp s.outgoing k') ]

-- The block of `yield_blocked` and `sleep` that blocks the current task.
abbrev pub block_current : Kernel → Outcome Kernel
block_current k = elim (get_task k.tasks k.current) [
  | none ↦ done k
  | some t ↦ set_thread_state t waiting (record k {
    tasks =
        put_task k.tasks k.current
          (record t { ticks_remaining = task_quantum_ticks; state = blocked });
  })
]

unfoldable pub yield_blocked : ℕ → Kernel → Outcome (Option Switch × Kernel)
yield_blocked rsp k = do k' ← block_current k; schedule rsp k'

-- The product of seconds and 1000 is a `u32`.
unfoldable pub sleep : ℕ → ℕ → Kernel → Outcome (Option Switch × Kernel)
sleep seconds rsp k =
    let queued = record k {
      sleep_queue = insert k.current ((seconds * 1000) % 2 ^ 32) k.sleep_queue;
    } in
    let yielded = schedule rsp k in
    let slept = yield_blocked rsp queued in if seconds == 0 then yielded else slept

-- The end of a task's own routine, up to the switch that does not return to it.
unfoldable pub task_exit : ℕ → Kernel → Outcome (Option Switch × Kernel)
task_exit rsp k = elim (get_task k.tasks k.current) [
  | none ↦ schedule rsp k
  | some t ↦ do
    k' ← mark_dying k.current t k
    schedule rsp (or_same k' (queue_task_reaper k.current k'))
]
