-- ===== src/Processes/Create.antt =====
-- What the calls that create a process do.
use crap_os.Base.{true, length, ℕ, refl, none, some, List, [], arith, ◌+◌, ◌^◌, ◌<◌, ◌≡◌, ◌==◌}
use crap_os.Processes.{
  System, Process, kernel_frame, user_frame, add_process, create_kernel_process,
  create_user_process, main_name, new_kernel_process, new_user_process, spawn_main,
  spawn_user_thread,
}
use crap_os.Processes.Sound.{IsSystem}
use crap_os.Processes.Spawn.{spawn_kernel_thread-cases, spawn_user_thread-cases}
use crap_os.Paging.AddressSpace.{AddressSpace, from_existing, init_address_space}
use crap_os.Paging.Manager.{MemoryManager}
use crap_os.Paging.{PageState}
use crap_os.Tasks.Create.{new_kernel, new_user}
use crap_os.Tasks.Ids.{TaskId}
use crap_os.Tasks.Outcome.{done}
use crap_os.Tasks.Switch.Pick.{Queued}
use crap_os.Processes.Register.{CreateCases, paged-IsSystem, register-cases}

-- The system is sound, the blocks at `p` and `at` are new, the counters are below their last value, and
-- fewer than 256 tasks are queued. Then `create_kernel_process` returns. If the task table is full, it
-- gives this error, and processes, threads, tasks and pages are as before. Otherwise the process is the
-- last one of the list, with the next id and with its main thread, whose task is ready, the only new one and the last one
-- of the ready queue. The system is sound again in both cases.
pub create_kernel_process-cases :
    (p at stack stub : ℕ) (name : List ℕ) (cr3 main_entry main_arg : ℕ) (ids : List TaskId)
    (s : System)
    → IsSystem s
    → s.store p ≡ none
    → s.kernel.threads at ≡ none
    → s.next_process_id + 1 < 2 ^ 64
    → s.next_thread_id + 1 < 2 ^ 64
    → Queued s.kernel.ready_queue ids
    → length ids < 256
    → CreateCases p at name
        (from_existing cr3)
        (new_kernel stack stub main_entry main_arg at).0
        ids
        s
        (create_kernel_process p at stack stub name cr3 main_entry main_arg s)
unfolding create_kernel_process new_kernel_process
create_kernel_process-cases p at stack stub name cr3 main_entry main_arg ids s h free_p free_at
      small_p small_t queue room =
    let same : (p == p) ≡ true = ground arith in
    let made : Process = record {
      id = s.next_process_id;
      name = name;
      address_space = from_existing cr3;
      threads = [];
    } in
    register-cases p at name (from_existing cr3) _
      (kernel_frame (new_kernel stack stub main_entry main_arg at).1) ids s _ h free_p free_at
      small_p small_t
      (spawn_kernel_thread-cases p at stack stub made main_name main_entry main_arg ids
        (add_process p name (from_existing cr3) s) (rw same refl) queue room)

-- The same for `create_user_process`, when the pages of the address space have been taken. They stay
-- taken if the task table is full and there is no process.
pub create_user_process-cases :
    (mm : MemoryManager) (p at stack stub : ℕ) (name : List ℕ) (kernel_pml4_phys user_entry : ℕ)
    (space : AddressSpace) (pages : PageState) (ids : List TaskId) (s : System)
    → init_address_space mm kernel_pml4_phys s.pages ≡ done (space, pages)
    → IsSystem s
    → s.store p ≡ none
    → s.kernel.threads at ≡ none
    → s.next_process_id + 1 < 2 ^ 64
    → s.next_thread_id + 1 < 2 ^ 64
    → Queued s.kernel.ready_queue ids
    → length ids < 256
    → CreateCases p at name space
        (new_user stack stub user_entry space.user_stack_top space.pml4_phys at).0
        ids
        (record s { pages = pages })
        (create_user_process mm p at stack stub name kernel_pml4_phys user_entry s)
unfolding create_user_process new_user_process
create_user_process-cases mm p at stack stub name kernel_pml4_phys user_entry space pages ids s
      paged h free_p free_at small_p small_t queue room =
    let s0 : System = record s { pages = pages } in
    let s1 : System = add_process p name space s0 in
    let same : (p == p) ≡ true = ground arith in
    let made : Process = record {
      id = s.next_process_id;
      name = name;
      address_space = space;
      threads = [];
    } in
    let live : s1.store p ≡ some made = rw same refl in
    let spawn : spawn_main p at stack stub user_entry s1
        ≡ spawn_user_thread p made at stack stub main_name user_entry s1 =
      rw (live, spawn_main) refl in
    rw (paged, spawn)
      (register-cases p at name space _
        (user_frame (new_user stack stub user_entry space.user_stack_top space.pml4_phys at).1) ids
        s0 _ (paged-IsSystem pages s h) free_p free_at small_p small_t
        (spawn_user_thread-cases p at stack stub made main_name user_entry ids s1 live queue room))
