-- ===== src/Processes/Boot.antt =====
-- The idle process, the first one.
use crap_os.Base.{ℕ, some, [], ◌∷◌, ◌++◌}
use crap_os.Processes.{
  find_by_name, find_by_name, System, Process, init_idle, new_idle_process, new_idle_thread,
  idle_name, put_process, put_thread,
}
use crap_os.Processes.Numbered.{Numbered}
use crap_os.Paging.AddressSpace.{from_existing}
use crap_os.Tasks.Ids.{idle}
use crap_os.Tasks.State.{Thread, active}

abbrev idle_process : ℕ → ℕ → Process
idle_process at cr3 = record {
  id = 0;
  name = idle_name;
  address_space = from_existing cr3;
  threads = at ∷ [];
}

abbrev idle_thread : Thread
idle_thread = record { id = 0; task_id = some idle; state = active }

-- What `init_idle_process` leaves.
abbrev booted : ℕ → ℕ → ℕ → System → System
booted p at cr3 s =
    let s1 = new_idle_thread at p (new_idle_process p cr3 s) in
    let s2 = put_process p (some (idle_process at cr3)) (put_thread at (some idle_thread) s1) in
    record s2 { processes = s.processes ++ p ∷ []; kernel = init_idle at s2.kernel }

abbrev last_steps : ℕ → ℕ → System → ℕ × System
last_steps p at x =
    (p, record x { processes = x.processes ++ p ∷ []; kernel = init_idle at x.kernel })
