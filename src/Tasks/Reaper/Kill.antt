-- ===== src/Tasks/Reaper/Kill.antt =====
-- `kill_task` on a task of the table.
use crap_os.Base.{
  ℕ, ◌<◌, ◌≡◌, refl, ap, ◌∙◌, Bool, true, false, Option, some, if◌then◌else◌, arith, List, [], ◌∷◌,
  ◌++◌, length,
}
use crap_os.Helpers.TaskCode.{expand_task_id}
use crap_os.Ring.{Ring, push}
use crap_os.Ring.Fifo.{push_room}
use crap_os.Tasks.Ids.{TaskId, same_id}
use crap_os.Tasks.Outcome.{done}
use crap_os.Tasks.Reaper.{kill_task, queue_task_reaper, or_same}
use crap_os.Tasks.Reaper.Cleanup.{Listed}
use crap_os.Tasks.Reaper.Drain.{kill-live, mark-live, signal, marked}
use crap_os.Tasks.State.{Kernel, Task, TaskState, Thread, ThreadState}
use crap_os.Tasks.Table.{get_task}
use crap_os.Tasks.Table.Laws.{get_task-put_task}

reaper-room :
    (id : TaskId) (k : Kernel) (q : Ring (Option TaskId))
    → push 6 (some id) k.reaper_queue ≡ some q
    → or_same k (queue_task_reaper id k) ≡ record k { reaper_queue = q }
unfolding queue_task_reaper
reaper-room id k q p = rw (p, queue_task_reaper) refl

-- The kernel after a task was killed.
pub record Killed (k k' : Kernel) (id : TaskId) (t : Task) (th : Thread) (ids : List TaskId)
    : Type 0 where
  pub task : get_task k'.tasks id ≡ some (record t { state = TaskState.dying })
  pub thread : k'.threads t.thread ≡ some (record th { state = ThreadState.dying })
  pub listed : Listed k'.reaper_queue (ids ++ id ∷ [])
  pub flag : k'.force_reschedule ≡ (if same_id id k.current then true else k.force_reschedule)
  pub current : k'.current ≡ k.current

signalled :
    (b : Bool) (k k0 : Kernel) (id : TaskId) (t : Task) (th : Thread) (ids : List TaskId)
    → get_task k0.tasks id ≡ some (record t { state = TaskState.dying })
    → k0.threads t.thread ≡ some (record th { state = ThreadState.dying })
    → Listed k0.reaper_queue (ids ++ id ∷ [])
    → k0.force_reschedule ≡ k.force_reschedule
    → k0.current ≡ k.current
    → same_id id k.current ≡ b
    → Killed k (signal b k0) id t th ids
signalled true k k0 id t th ids task thread listed flag current e = record {
  task = task;
  thread = thread;
  listed = listed;
  flag = rw e refl;
  current = current;
}
signalled false k k0 id t th ids task thread listed flag current e = record {
  task = task;
  thread = thread;
  listed = listed;
  flag = rw e flag;
  current = current;
}

-- A number that names a task with a live thread, and room in the reaper queue: the task and its thread
-- are dying, the task is behind the others in the reaper queue, and a reschedule is forced if it is
-- the current task, and else only if it was forced before.
pub kill_task-Killed :
    (code : ℕ) (k : Kernel) (t : Task) (th : Thread) (ids : List TaskId)
    → get_task k.tasks (expand_task_id code) ≡ some t
    → k.threads t.thread ≡ some th
    → Listed k.reaper_queue ids
    → length ids < 64
    → (k' : Kernel) × (kill_task code k ≡ done k') × Killed k k' (expand_task_id code) t th ids
kill_task-Killed code k t th ids e l h room =
    let id = expand_task_id code in
    let k1 = marked code k t th in
    let (q, pushed, h') = push_room 6 (λ (a : TaskId). some a) id k.reaper_queue ids h room in
    let k2 = record k1 { reaper_queue = q } in
    let written : get_task k1.tasks id ≡ some (record t { state = TaskState.dying }) =
      get_task-put_task k.tasks id id t (record t { state = TaskState.dying }) e ∙ ground arith in
    let thread : k1.threads t.thread ≡ some (record th { state = ThreadState.dying }) =
      ground arith in
    (
      signal (same_id id k.current) k2,
      kill-live code k k1 t e (mark-live code k t th l)
          ∙ ap (λ j. done (signal (same_id id k.current) j)) (reaper-room id k1 q pushed),
      signalled (same_id id k.current) k k2 id t th ids written thread h' refl refl refl,
    )
