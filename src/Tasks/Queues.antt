-- ===== src/Tasks/Queues.antt =====
-- The four queues of the kernel: the ready queue, whose slots keep their entries, and the queues of
-- optional entries, of which there are the reaper queue, the tombstone queue and the queue of system
-- tasks.
use crap_os.Base.{ℕ, ◌≡◌, ◌^◌, none, some, List, []}
use crap_os.Ring.{empty_ring}
use crap_os.Ring.Fifo.{IsRing-empty, ring_fifo, take_fifo}
use crap_os.Ring.Runs.{Call, run, run_list, run-run_list}
use crap_os.Tasks.Ids.{TaskId, idle}

-- From the empty ready queue, every sequence of pushes and pops gets the answers of a list of at
-- most 256 ids.
pub ready_queue-run_list :
    (calls : List (Call TaskId))
    → run (ring_fifo TaskId 8) (empty_ring idle) calls ≡ run_list 256 [] calls
ready_queue-run_list calls =
    run-run_list (ring_fifo TaskId 8) (empty_ring idle) [] calls
      (IsRing-empty 8 (λ (a : TaskId). a) idle)

-- The same for a queue of optional entries, with `2 ^ w` slots.
pub take_queue-run_list :
    (A : Type 0) (w : ℕ) (calls : List (Call A))
    → run (take_fifo A w) (empty_ring none) calls ≡ run_list (2 ^ w) [] calls
take_queue-run_list A w calls =
    run-run_list (take_fifo A w) (empty_ring none) [] calls
      (IsRing-empty w (λ (a : A). some a) none)
