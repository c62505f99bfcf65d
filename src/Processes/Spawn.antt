-- ===== src/Processes/Spawn.antt =====
-- What a call that spawns a thread does: both `spawn_kernel_thread` and `spawn_user_thread`.
use crap_os.Base.{
  ap, arith, ◌∙◌, ℕ, refl, inl, inr, none, some, List, [], length, update, Result, ok, err,
  Result-cases, ◌+◌, ◌%◌, ◌^◌, ◌<◌, ◌≡◌, ◌∷◌, ◌++◌, ◌==◌, if◌then◌else◌, ◌⊎◌,
}
use crap_os.Processes.{
  System, Process, Frame, kernel_frame, user_frame, new_thread, push_thread, put_process,
  put_thread, queue_thread, set_task_id, spawn_kernel_thread, spawn_user_thread,
}
use crap_os.Ring.{Ring}
use crap_os.Ring.Fifo.{push_room}
use crap_os.Tasks.Create.{new_kernel, new_user}
use crap_os.Tasks.Ids.{TaskId, same_id}
use crap_os.Tasks.Outcome.{Outcome, done}
use crap_os.Tasks.State.{Kernel, SchedulerError, Task, TaskSlot, Thread, active, task_table_full}
use crap_os.Tasks.Switch.{insert_and_queue_task}
use crap_os.Tasks.Switch.Pick.{Queued}
use crap_os.Tasks.Table.{admitted, get_task, insert_task}
use crap_os.Tasks.Table.Laws.{AllTaken, insert_task-err, insert_task-ok}
use crap_os.Tasks.Wake.Laws.{enqueue-room}

-- A task finds a slot and a place in the queue, or the table is full.
record Queuing (task : Task) (k : Kernel) (ids : List TaskId) (id : TaskId) : Type 0 where
  slots : List TaskSlot
  queue : Ring TaskId
  returns :
      insert_and_queue_task task k ≡ done (ok id, record k { tasks = slots; ready_queue = queue })
  fresh : get_task k.tasks id ≡ none
  finds :
      (other : TaskId)
      → get_task slots other
        ≡ (if same_id other id then some (admitted task id) else get_task k.tasks other)
  last : Queued queue (ids ++ id ∷ [])

insert_and_queue_task-cases :
    (task : Task) (k : Kernel) (ids : List TaskId)
    → Queued k.ready_queue ids
    → length ids < 256
    → (AllTaken k.tasks × (insert_and_queue_task task k ≡ done (err task_table_full, k)))
      ⊎ ((id : TaskId) × Queuing task k ids id)
unfolding insert_and_queue_task
insert_and_queue_task-cases task k ids h room = elim (Result-cases (insert_task task k.tasks)) [
  | inl (e, f) ↦
      let (taken, full) = insert_task-err k.tasks task e f in
      inl (taken, rw (full, insert_and_queue_task) refl)
  | inr ((id, slots), f) ↦
      let (fresh, _, finds) = insert_task-ok k.tasks task id slots f in
      let (q, pushed, h') = push_room 8 (λ (a : TaskId). a) id k.ready_queue ids h room in
      inr (
        id,
        record {
          slots = slots;
          queue = q;
          returns =
              rw (f, enqueue-room id (record k { tasks = slots }) q pushed, insert_and_queue_task)
                refl;
          fresh = fresh;
          finds = finds;
          last = h';
        },
      )
]

-- The thread `at` of the process `p`, with a task `id` that runs it.
pub record Spawned (p at : ℕ) (proc : Process) (name : List ℕ) (task : Task) (frame : Frame)
    (ids : List TaskId) (s : System) (id : TaskId) (s' : System) : Type 0 where
  pub fresh : get_task s.kernel.tasks id ≡ none
  pub finds :
      (other : TaskId)
      → get_task s'.kernel.tasks other
        ≡ (if same_id other id then some (admitted task id) else get_task s.kernel.tasks other)
  pub last : Queued s'.kernel.ready_queue (ids ++ id ∷ [])
  pub threads :
      (b : ℕ)
      → s'.kernel.threads b ≡ (
          if b == at
          then some (record { id = s.next_thread_id; task_id = some id; state = active })
          else s.kernel.threads b)
  pub owners :
      (b : ℕ) → s'.owners b ≡ (if b == at then record { name = name; process = p } else s.owners b)
  pub frames : (b : ℕ) → s'.frames b ≡ (if b == task.saved_rsp then some frame else s.frames b)
  pub store :
      (b : ℕ)
      → s'.store b
        ≡ (if b == p then some (record proc { threads = proc.threads ++ at ∷ [] }) else s.store b)
  pub processes : s'.processes ≡ s.processes
  pub next_process_id : s'.next_process_id ≡ s.next_process_id
  pub next_thread_id : s'.next_thread_id ≡ (s.next_thread_id + 1) % 2 ^ 64
  pub pages : s'.pages ≡ s.pages

-- A failed spawn has used up a thread id.
abbrev pub refused : ℕ → ℕ → List ℕ → System → System
refused p at name s = put_thread at none (new_thread at name p s)

abbrev pub SpawnCases :
    ℕ
    → ℕ
    → Process
    → List ℕ
    → Task
    → Frame
    → List TaskId
    → System
    → Outcome (Result SchedulerError ℕ × System)
    → Type 0
SpawnCases p at proc name task frame ids s result =
    (AllTaken s.kernel.tasks × (result ≡ done (err task_table_full, refused p at name s)))
    ⊎ ((id : TaskId) × (s' : System) × (result ≡ done (ok at, s'))
        × Spawned p at proc name task frame ids s id s')

queue_thread-cases :
    (p at : ℕ) (proc : Process) (name : List ℕ) (task : Task) (frame : Frame) (ids : List TaskId)
    (s : System)
    → s.store p ≡ some proc
    → Queued s.kernel.ready_queue ids
    → length ids < 256
    → SpawnCases p at proc name task frame ids s
        (queue_thread p at task frame (new_thread at name p s))
unfolding queue_thread new_thread
queue_thread-cases p at proc name task frame ids s live h room =
    let s1 = new_thread at name p s in
    elim (insert_and_queue_task-cases task s1.kernel ids h room) [
      | inl (taken, e) ↦ inl (taken, rw e refl)
      | inr (id, w) ↦
          let k : Kernel = record s1.kernel { tasks = w.slots; ready_queue = w.queue } in
          let s2 : System = record s1 {
            kernel = k;
            frames = update s.frames task.saved_rsp (some frame);
          } in
          let t : Thread = record { id = s.next_thread_id; task_id = none; state = active } in
          let s3 : System = put_thread at (some (record t { task_id = some id })) s2 in
          let s4 : System =
            put_process p (some (record proc { threads = proc.threads ++ at ∷ [] })) s3 in
          let here : s2.kernel.threads at ≡ some t = ground arith in
          let set : set_task_id at id s2 ≡ s3 = rw (here, set_task_id) refl in
          let pushed : push_thread p at s3 ≡ s4 = rw (live, push_thread) refl in
          inr (
            id,
            s4,
            rw w.returns (ap (λ x. done (ok at, x)) (ap (push_thread p at) set ∙ pushed)),
            record {
              fresh = w.fresh;
              finds = w.finds;
              last = w.last;
              threads = λ b. ground arith;
              owners = λ b. refl;
              frames = λ b. refl;
              store = λ b. refl;
              processes = refl;
              next_process_id = refl;
              next_thread_id = refl;
              pages = refl;
            },
          )
    ]

-- Both calls: the task table is full, or the thread is there with its task and its frame.
pub spawn_kernel_thread-cases :
    (p at stack stub : ℕ) (proc : Process) (name : List ℕ) (entry arg : ℕ) (ids : List TaskId)
    (s : System)
    → s.store p ≡ some proc
    → Queued s.kernel.ready_queue ids
    → length ids < 256
    → let (task, frame) = new_kernel stack stub entry arg at in
      SpawnCases p at proc name task
        (kernel_frame frame)
        ids
        s
        (spawn_kernel_thread p at stack stub name entry arg s)
unfolding spawn_kernel_thread
spawn_kernel_thread-cases p at stack stub proc name entry arg ids s live h room =
    queue_thread-cases p at proc name _ _ ids s live h room

pub spawn_user_thread-cases :
    (p at stack stub : ℕ) (proc : Process) (name : List ℕ) (entry : ℕ) (ids : List TaskId)
    (s : System)
    → s.store p ≡ some proc
    → Queued s.kernel.ready_queue ids
    → length ids < 256
    → let (task, frame) =
        new_user stack stub entry proc.address_space.user_stack_top proc.address_space.pml4_phys
          at in
      SpawnCases p at proc name task
        (user_frame frame)
        ids
        s
        (spawn_user_thread p proc at stack stub name entry s)
unfolding spawn_user_thread
spawn_user_thread-cases p at stack stub proc name entry ids s live h room =
    queue_thread-cases p at proc name _ _ ids s live h room
