-- ===== src/Tests/Processes.antt =====
-- The processes at concrete inputs.
use crap_os.Base.{refl, none, [], arith, ◌∷◌}
use crap_os.Paging.AddressSpace.{from_existing}
use crap_os.Processes.{System, create_kernel_process}
use crap_os.Processes.Create.{create_kernel_process-cases}
use crap_os.Processes.Register.{CreateCases}
use crap_os.Processes.Sound.{IsSystem}
use crap_os.Ring.{empty_ring}
use crap_os.Ring.Fifo.{IsRing-empty}
use crap_os.Tasks.Create.{new_kernel}
use crap_os.Tasks.Ids.{TaskId, idle}
use crap_os.Tasks.State.{Kernel, ready}
use crap_os.Tasks.Switch.Pick.{Queued}
use crap_os.Tasks.Table.{empty_table}
use crap_os.Tests.Memory.{some_pages}
use crap_os.Tests.Sched.{some_kernel}

abbrev boot_kernel : Kernel
boot_kernel = record (some_kernel ready) {
  tasks = empty_table;
  ready_queue = empty_ring idle;
  threads = λ _. none;
}

abbrev boot_system : System
boot_system = record {
  kernel = boot_kernel;
  owners = λ _. record { name = []; process = 0 };
  frames = λ _. none;
  store = λ _. none;
  processes = [];
  next_process_id = 1;
  next_thread_id = 1;
  pages = some_pages;
}

boot_system-IsSystem : IsSystem boot_system
boot_system-IsSystem = record {
  owned = λ p proc e. absurd (let h = e in cc);
  listed = tt;
  process_ids = record {
    below = λ p a e. absurd (let h = e in cc);
    unique = λ p q a b e f same. absurd (let h = e in cc);
  };
  thread_ids = record {
    below = λ p a e. absurd (let h = e in cc);
    unique = λ p q a b e f same. absurd (let h = e in cc);
  };
}

no_task-Queued : Queued boot_system.kernel.ready_queue []
no_task-Queued = IsRing-empty 8 (λ (a : TaskId). a) idle

create_kernel_process-cases_example :
    CreateCases 0x100 0x200
      (b'a' ∷ [])
      (from_existing 0x1000)
      (new_kernel 0x8000 0x400 0x500 7 0x200).0
      []
      boot_system
      (create_kernel_process 0x100 0x200 0x8000 0x400 (b'a' ∷ []) 0x1000 0x500 7 boot_system)
create_kernel_process-cases_example =
    create_kernel_process-cases 0x100 0x200 0x8000 0x400 (b'a' ∷ []) 0x1000 0x500 7 [] boot_system
      boot_system-IsSystem refl refl (omega arith) (omega arith) no_task-Queued (omega arith)
