-- ===== src/Processes.antt =====
-- Processes and their threads: process_manager/process.rs, manager.rs and thread.rs of
-- crap_os/src. An `Arc` is the address of its block of the heap, which the caller passes: `p` of a process,
-- `at` of a thread, `stack` of the kernel stack of a task. A block is in a store while an `Arc` of it is left.
pub mod Numbered
pub mod Sound
pub mod Spawn
pub mod Boot
pub mod Create
pub mod Register
pub mod Life
use crap_os.Base.{
  eq_bytes, ℕ, false, Option, none, some, List, [], update, Result, ok, err, ◌+◌, ◌%◌, ◌^◌, ◌∷◌,
  ◌++◌, ◌==◌, if◌then◌else◌,
}
use crap_os.Tasks.Create.{KernelInitialFrame, UserInitialFrame, new_kernel, new_user, new_idle}
use crap_os.Tasks.Ids.{TaskId, idle}
use crap_os.Tasks.Outcome.{Outcome, done, panic, ◌>>=◌}
use crap_os.Tasks.State.{Kernel, SchedulerError, Task, Thread, active}
use crap_os.Tasks.Switch.{insert_and_queue_task, task_quantum_ticks}
use crap_os.Tasks.Table.{insert_idle_task}
use crap_os.Paging.{PageState}
use crap_os.Paging.AddressSpace.{AddressSpace, from_existing, init_address_space}
use crap_os.Paging.Manager.{MemoryManager}
use crap_os.Ring.{empty_ring}

pub record Process : Type 0 where
  pub id : ℕ
  pub name : List ℕ
  pub address_space : AddressSpace
  pub threads : List ℕ

-- What the scheduler does not read of a thread: its name, and the process that its weak reference names.
pub record Owner : Type 0 where
  pub name : List ℕ
  pub process : ℕ

-- The frames stand on the stacks of the tasks that have not run yet.
pub data Frame : Type 0 where
  kernel_frame : KernelInitialFrame → Frame
  user_frame : UserInitialFrame → Frame

-- The kernel's statics, the counters of the ids, the stores of the blocks by address, the process
-- list of the manager, and the pages.
pub record System : Type 0 where
  pub kernel : Kernel
  pub owners : ℕ → Owner
  pub frames : ℕ → Option Frame
  pub store : ℕ → Option Process
  pub processes : List ℕ
  pub next_process_id : ℕ
  pub next_thread_id : ℕ
  pub pages : PageState

abbrev put_thread : ℕ → Option Thread → System → System
put_thread at t s = record s { kernel = record s.kernel { threads = update s.kernel.threads at t } }

-- `Thread::new`
unfoldable pub new_thread : ℕ → List ℕ → ℕ → System → System
new_thread at name p s =
    let s' =
      put_thread at (some (record { id = s.next_thread_id; task_id = none; state = active })) s in
    record s' {
      owners = update s.owners at (record { name = name; process = p });
      next_thread_id = (s.next_thread_id + 1) % 2 ^ 64;
    }

-- `Idle`
abbrev pub idle_name : List ℕ
idle_name = b'I' ∷ b'd' ∷ b'l' ∷ b'e' ∷ []

unfoldable pub new_idle_thread : ℕ → ℕ → System → System
new_idle_thread at p s =
    record (put_thread at (some (record { id = 0; task_id = none; state = active })) s) {
      owners = update s.owners at (record { name = idle_name; process = p });
    }

abbrev put_process : ℕ → Option Process → System → System
put_process p process s = record s { store = update s.store p process }

-- `Process::new_idle` and `Process::new_kernel`
unfoldable pub new_idle_process : ℕ → ℕ → System → System
new_idle_process p cr3 s =
    put_process p
      (some (record { id = 0; name = idle_name; address_space = from_existing cr3; threads = [] }))
      s

abbrev add_process : ℕ → List ℕ → AddressSpace → System → System
add_process p name space s =
    record (put_process p
      (some (record { id = s.next_process_id; name = name; address_space = space; threads = [] }))
      s) { next_process_id = (s.next_process_id + 1) % 2 ^ 64 }

unfoldable pub new_kernel_process : ℕ → List ℕ → ℕ → System → System
new_kernel_process p name cr3 s = add_process p name (from_existing cr3) s

unfoldable pub new_user_process : MemoryManager → ℕ → List ℕ → ℕ → System → Outcome System
new_user_process mm p name kernel_pml4_phys s =
    init_address_space mm kernel_pml4_phys s.pages >>= λ (space, pages).
    done (add_process p name space (record s { pages = pages }))

-- `thread.lock().task_id = Some(task_id)`
abbrev set_task_id : ℕ → TaskId → System → System
set_task_id at id s = elim (s.kernel.threads at) [
  | none ↦ s
  | some t ↦ put_thread at (some (record t { task_id = some id })) s
]

-- `self.threads.lock().push(thread)`
abbrev push_thread : ℕ → ℕ → System → System
push_thread p at s = elim (s.store p) [
  | none ↦ s
  | some process ↦ put_process p (some (record process { threads = process.threads ++ at ∷ [] })) s
]

-- The rest of both `spawn` functions, with the frame that the new task has. The thread and the task are
-- dropped when there is no slot for the task.
unfoldable pub queue_thread :
    ℕ → ℕ → Task → Frame → System → Outcome (Result SchedulerError ℕ × System)
queue_thread p at task frame s = insert_and_queue_task task s.kernel >>= λ (r, k). elim r [
  | err e ↦ done (err e, put_thread at none (record s { kernel = k }))
  | ok id ↦ done (
    ok at,
    push_thread p at (
        set_task_id at id
          (record s { kernel = k; frames = update s.frames task.saved_rsp (some frame) })),
  )
]

unfoldable pub spawn_kernel_thread :
    ℕ → ℕ → ℕ → ℕ → List ℕ → ℕ → ℕ → System → Outcome (Result SchedulerError ℕ × System)
unfolding queue_thread
spawn_kernel_thread p at stack stub name entry arg s =
    let (task, frame) = new_kernel stack stub entry arg at in
    queue_thread p at task (kernel_frame frame) (new_thread at name p s)

unfoldable pub spawn_user_thread :
    ℕ → Process → ℕ → ℕ → ℕ → List ℕ → ℕ → System → Outcome (Result SchedulerError ℕ × System)
unfolding queue_thread
spawn_user_thread p self at stack stub name user_entry s =
    let (task, frame) =
      new_user stack stub user_entry self.address_space.user_stack_top self.address_space.pml4_phys
        at in
    queue_thread p at task (user_frame frame) (new_thread at name p s)

abbrev keep_others : (ℕ → Option Thread) → ℕ → List ℕ → List ℕ
keep_others live id [] = []
keep_others live id (at ∷ rest) = elim (live at) [
  | none ↦ keep_others live id rest
  | some t ↦ if t.id == id then keep_others live id rest else at ∷ keep_others live id rest
]

unfoldable pub remove_thread : ℕ → ℕ → System → System
remove_thread p thread_id s = elim (s.store p) [
  | none ↦ s
  | some self ↦
      put_process p
        (some (record self { threads = keep_others s.kernel.threads thread_id self.threads })) s
]

-- The process list gets a process whose thread is there. A process without one is dropped.
abbrev register : ℕ → Result SchedulerError ℕ × System → Outcome (Result SchedulerError ℕ × System)
register p (err e, s) = done (err e, put_process p none s)
register p (ok at, s) = done (ok p, record s { processes = s.processes ++ p ∷ [] })

-- `main`
abbrev main_name : List ℕ
main_name = b'm' ∷ b'a' ∷ b'i' ∷ b'n' ∷ []

unfoldable pub create_kernel_process :
    ℕ → ℕ → ℕ → ℕ → List ℕ → ℕ → ℕ → ℕ → System → Outcome (Result SchedulerError ℕ × System)
unfolding new_kernel_process spawn_kernel_thread
create_kernel_process p at stack stub name cr3 main_entry main_arg s =
    spawn_kernel_thread p at stack stub main_name main_entry main_arg
      (new_kernel_process p name cr3 s)
    >>= register p

abbrev spawn_main : ℕ → ℕ → ℕ → ℕ → ℕ → System → Outcome (Result SchedulerError ℕ × System)
spawn_main p at stack stub user_entry s = elim (s.store p) [
  | none ↦ panic
  | some self ↦ spawn_user_thread p self at stack stub main_name user_entry s
]

unfoldable pub create_user_process :
    MemoryManager
    → ℕ
    → ℕ
    → ℕ
    → ℕ
    → List ℕ
    → ℕ
    → ℕ
    → System
    → Outcome (Result SchedulerError ℕ × System)
create_user_process mm p at stack stub name kernel_pml4_phys user_entry s =
    new_user_process mm p name kernel_pml4_phys s
    >>= spawn_main p at stack stub user_entry
    >>= register p

-- `task_scheduler::init_idle`: the slot of the CPU is new.
unfoldable pub init_idle : ℕ → Kernel → Kernel
init_idle thread k = record k {
  ready_queue = empty_ring idle;
  current = idle;
  cpu_ticks_remaining = task_quantum_ticks;
  force_reschedule = false;
  tasks = insert_idle_task (new_idle thread) k.tasks;
}

unfoldable pub init_idle_process : ℕ → ℕ → ℕ → System → ℕ × System
init_idle_process p at cr3 s =
    let made = set_task_id at idle (new_idle_thread at p (new_idle_process p cr3 s)) in
    let listed = push_thread p at made in
    (
      p,
      record listed { processes = listed.processes ++ p ∷ []; kernel = init_idle at listed.kernel },
    )

-- The first process with the name.
unfoldable pub find_by_name : (ℕ → Option Process) → List ℕ → List ℕ → Option ℕ
find_by_name store name [] = none
find_by_name store name (p ∷ rest) = elim (store p) [
  | none ↦ find_by_name store name rest
  | some process ↦ if eq_bytes process.name name then some p else find_by_name store name rest
]
