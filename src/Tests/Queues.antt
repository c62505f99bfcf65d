-- ===== src/Tests/Queues.antt =====
-- The queues at concrete inputs.
use crap_os.Base.{◌≡◌, List, [], ◌∷◌}
use crap_os.Ring.{empty_ring}
use crap_os.Ring.Fifo.{ring_fifo}
use crap_os.Ring.Runs.{Call, put, get, run, run_list}
use crap_os.Tasks.Ids.{TaskId, idle, task_id}
use crap_os.Tasks.Queues.{ready_queue-run_list}

abbrev some_calls : List (Call TaskId)
some_calls = put (task_id 1 0) ∷ get ∷ put (task_id 2 0) ∷ put (task_id 3 1) ∷ get ∷ get ∷ get ∷ []

ready_queue-run_list_example :
    run (ring_fifo TaskId 8) (empty_ring idle) some_calls ≡ run_list 256 [] some_calls
ready_queue-run_list_example = ready_queue-run_list some_calls
