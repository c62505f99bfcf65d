-- ===== src/Tasks/Wake.antt =====
-- Blocked tasks that become ready again: `wake`, and the tick of the sleep queue.
pub mod Laws
pub mod Tick
use crap_os.Base.{
  ℕ, zero, suc, ◌+◌, Bool, true, false, Option, none, some, Result, ok, err, if◌then◌else◌, update,
}
use crap_os.Ring.{Ring, push}
use crap_os.Tasks.Ids.{TaskId}
use crap_os.Tasks.Outcome.{Outcome, done, panic, no_fuel, ◌>>=◌, unwrap}
use crap_os.Tasks.Sleep.{SleepQueue, count_down, pop_expired}
use crap_os.Tasks.State.{
  TaskState, ThreadState, SchedulerError, Task, Thread, Kernel, queue_full, unknown_task,
  same_state, ready, blocked, active,
}
use crap_os.Tasks.Table.{get_task, put_task}

-- `task.thread.upgrade().unwrap().lock().state = s`
abbrev pub set_thread_state : Task → ThreadState → Kernel → Outcome Kernel
set_thread_state t s k = do
  th ← unwrap (k.threads t.thread)
  done (record k { threads = update k.threads t.thread (some (record th { state = s })) })

-- The push on the ready queue of the boot CPU.
abbrev pub enqueue : TaskId → Kernel → Result SchedulerError Kernel
enqueue id k = elim (push 8 id k.ready_queue) [
  | none ↦ err queue_full
  | some q ↦ ok (record k { ready_queue = q })
]

-- An error keeps what the call has written before it.
abbrev pub answer :
    Kernel → Result SchedulerError Kernel → Result SchedulerError (Unit {0}) × Kernel
answer k (ok k') = (ok tt, k')
answer k (err e) = (err e, k)

unfoldable pub wake : TaskId → Kernel → Outcome (Result SchedulerError (Unit {0}) × Kernel)
wake id k = elim (get_task k.tasks id) [
  | none ↦ done (err unknown_task, k)
  | some t ↦
      if same_state t.state blocked
      then (do
        k' ←
            set_thread_state t active
              (record k { tasks = put_task k.tasks id (record t { state = ready }) })
        done (answer k' (enqueue id k')))
      else done (ok tt, k)
]

-- The loop of `tick`: the number of tasks that it woke.
unfoldable pub wake_expired : ℕ → Kernel → Outcome (ℕ × Kernel)
wake_expired zero k = no_fuel
wake_expired (suc fuel) k = elim (pop_expired k.sleep_queue) [
  | none ↦ done (0, k)
  | some (id, q) ↦ do
    (_, k') ← wake id (record k { sleep_queue = q })
    (woken, k'') ← wake_expired fuel k'
    done (woken + 1, k'')
]

unfoldable pub tick_sleep_queue : Kernel → Outcome (ℕ × Kernel)
tick_sleep_queue k =
    let q = count_down k.sleep_queue in
    wake_expired (q.queue_len + 1) (record k { sleep_queue = q })
