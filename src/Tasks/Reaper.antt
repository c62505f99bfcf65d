-- ===== src/Tasks/Reaper.antt =====
-- The end of a task: it is marked as dying, reaped and removed.
pub mod Cleanup
pub mod Doom
pub mod Drain
pub mod Kill
pub mod Reap
use crap_os.Base.{
  ℕ, zero, suc, ◌+◌, Bool, true, false, ◌&&◌, Option, none, some, Result, ok, err, if◌then◌else◌,
  update,
}
use crap_os.Helpers.TaskCode.{compress_task_id, expand_task_id}
use crap_os.Ring.{Ring, push, pop_take}
use crap_os.Tasks.Ids.{TaskId, same_id}
use crap_os.Tasks.Outcome.{Outcome, done, panic, no_fuel, ◌>>=◌, unwrap}
use crap_os.Tasks.State.{
  TaskState, ThreadState, ReaperError, Task, Thread, SystemTask, SystemFunction, task_killer,
  Kernel, reaper_queue_full, same_state,
}
use crap_os.Tasks.Table.{get_task, put_task, free_slot, is_some}
use crap_os.Tasks.Wake.{set_thread_state}

unfoldable pub queue_task_reaper : TaskId → Kernel → Result ReaperError Kernel
queue_task_reaper id k = elim (push 6 (some id) k.reaper_queue) [
  | none ↦ err reaper_queue_full
  | some q ↦ ok (record k { reaper_queue = q })
]

-- A caller that only prints the error.
abbrev pub or_same : {E : Type 0} → Kernel → Result E Kernel → Kernel
or_same k (ok k') = k'
or_same k (err e) = k

-- The block that marks a task and its thread as dying.
abbrev pub mark_dying : TaskId → Task → Kernel → Outcome Kernel
mark_dying id t k =
    set_thread_state t ThreadState.dying
      (record k { tasks = put_task k.tasks id (record t { state = TaskState.dying }) })

unfoldable pub kill_task : ℕ → Kernel → Outcome Kernel
kill_task task_id_u64 k =
    let id = expand_task_id task_id_u64 in
    elim (get_task k.tasks id) [
      | none ↦ done (or_same k (queue_task_reaper id k))
      | some t ↦ do
        k' ← mark_dying id t k
        (let queued = or_same k' (queue_task_reaper id k') in
            if same_id id k.current
            then done (record queued { force_reschedule = true })
            else done queued)
    ]

unfoldable pub kill_current_task : Kernel → Outcome Kernel
kill_current_task k = elim (get_task k.tasks k.current) [
  | none ↦ done k
  | some t ↦ do k' ← mark_dying k.current t k; done (or_same k' (queue_task_reaper k.current k'))
]

-- `remove_task`: the thread loses its task, and the slot is freed.
unfoldable pub remove_task : TaskId → Kernel → Outcome Kernel
remove_task id k = elim (get_task k.tasks id) [
  | none ↦ done k
  | some t ↦ do
    th ← unwrap (k.threads t.thread)
    done (record k {
      threads =
          update k.threads t.thread (some (record th { task_id = none; state = ThreadState.dead }));
      tasks = free_slot k.tasks id;
    })
]

-- One id of the reaper queue: a dying task is marked as dead and gets a tombstone.
abbrev pub reap_task : TaskId → Kernel → Kernel
reap_task id k = elim (get_task k.tasks id) [
  | none ↦ k
  | some t ↦
      if same_state t.state TaskState.dying
      then (let k' = record k {
        tasks = put_task k.tasks id (record t { state = TaskState.dead });
      } in
          elim (push 6 (some id) k.tombstone_queue) [
            | none ↦ k'
            | some q ↦ record k' { tombstone_queue = q }
          ])
      else k
]

unfoldable pub reap_loop : ℕ → Kernel → Outcome Kernel
reap_loop zero k = no_fuel
reap_loop (suc fuel) k =
    let (id?, q) = pop_take 6 k.reaper_queue in
    elim id? [
      | none ↦ done (record k { reaper_queue = q })
      | some id ↦ reap_loop fuel (reap_task id (record k { reaper_queue = q }))
    ]

-- The early return on an empty queue is the loop's first exit.
unfoldable pub reap_dying_tasks : Kernel → Outcome Kernel
reap_dying_tasks k = reap_loop (k.reaper_queue.queue_len + 1) k

unfoldable pub cleanup_loop : ℕ → Kernel → Outcome Kernel
cleanup_loop zero k = no_fuel
cleanup_loop (suc fuel) k =
    let (id?, q) = pop_take 6 k.tombstone_queue in
    elim id? [
      | none ↦ done (record k { tombstone_queue = q })
      | some id ↦ do k' ← remove_task id (record k { tombstone_queue = q }); cleanup_loop fuel k'
    ]

unfoldable pub tombstone_cleanup : Kernel → Outcome Kernel
tombstone_cleanup k = cleanup_loop (k.tombstone_queue.queue_len + 1) k

-- A full queue drops the task.
unfoldable pub queue_system_task : SystemFunction → ℕ → Kernel → Kernel
queue_system_task f arg k =
    elim (push 5 (some (record { function = f; func_arg = arg })) k.system_tasks) [
      | none ↦ k
      | some q ↦ record k { system_tasks = q }
    ]

-- `(task.function)(task.func_arg)`
abbrev pub call_system_task : SystemTask → Kernel → Outcome Kernel
call_system_task t k = elim t.function [ task_killer ↦ kill_task t.func_arg k ]

unfoldable pub drain_loop : ℕ → Kernel → Outcome Kernel
drain_loop zero k = no_fuel
drain_loop (suc fuel) k =
    let (task?, q) = pop_take 5 k.system_tasks in
    elim task? [
      | none ↦ done (record k { system_tasks = q })
      | some t ↦ do k' ← call_system_task t (record k { system_tasks = q }); drain_loop fuel k'
    ]

unfoldable pub drain_system_tasks : Kernel → Outcome Kernel
drain_system_tasks k = drain_loop (k.system_tasks.queue_len + 1) k

-- `Thread::exit`: a thread that still has its task queues the killer for it.
unfoldable pub exit : Thread → Kernel → Kernel
exit th k = elim th.state [
  | ThreadState.dead ↦ k
  | ThreadState.dying ↦ k
  | _ ↦ elim th.task_id [
    | none ↦ k
    | some id ↦ queue_system_task task_killer (compress_task_id id) k
  ]
]
