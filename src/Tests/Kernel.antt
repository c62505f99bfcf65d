-- ===== src/Tests/Kernel.antt =====
-- The scheduler and the reaper at concrete inputs.
use crap_os.Base.{
  ◌≡◌, refl, Option, none, some, List, [], ◌∷◌, ◌++◌, length, arith, Result, ok, err, if◌then◌else◌,
  ◌==◌,
}
use crap_os.Helpers.TaskCode.{compress_task_id, expand_task_id}
use crap_os.Ring.{Ring}
use crap_os.Ring.Fifo.{IsRing, IsRing-empty}
use crap_os.Tasks.Ids.{TaskId, idle, same_id, task_id}
use crap_os.Tasks.Outcome.{done}
use crap_os.Tasks.Reaper.{drain_system_tasks, exit, kill_task, reap_dying_tasks, tombstone_cleanup}
use crap_os.Tasks.Reaper.Cleanup.{AllAlive, Listed, Removed, tombstone_cleanup-Removed}
use crap_os.Tasks.Reaper.Drain.{SystemQueued, exit-drain, with_system}
use crap_os.Tasks.Reaper.Doom.{doomed, drain_system_tasks-doomed, victims}
use crap_os.Tasks.Reaper.Kill.{Killed, kill_task-Killed}
use crap_os.Tasks.Reaper.Reap.{named, reap_dying_tasks-reaped, reaped}
use crap_os.Tasks.Sleep.{SleepEntry, SleepQueue, insert}
use crap_os.Tasks.Sleep.Delta.{schedule_wake, wake_times}
use crap_os.Tasks.Sleep.Insert.{insert-wake_times}
use crap_os.Tasks.Sleep.Refine.{Sleeps}
use crap_os.Tasks.Sleep.Tick.{HeadWaits, due, waiting}
use crap_os.Tasks.State.{
  task_killer, Kernel, SchedulerError, SystemTask, TaskSlot, TaskState, blocked, queue_full, ready,
  running,
}
use crap_os.Tasks.Switch.{choose}
use crap_os.Tasks.Switch.Laws.{choose-round_robin, goes_back, put_off, switch_to_task}
use crap_os.Tasks.Switch.Pick.{Queued, first_ready}
use crap_os.Tasks.Table.{admitted, get_task, insert_from, insert_task}
use crap_os.Tasks.Table.Laws.{insert_task-ok}
use crap_os.Tasks.Wake.{tick_sleep_queue, wake}
use crap_os.Tasks.Wake.Laws.{wake-blocked, with_sleep}
use crap_os.Tasks.Wake.Tick.{tick_sleep_queue-due, wake_all}
use crap_os.Tests.Sched.{
  a_slot, a_task, a_thread, one-Listed, one-Queued, one_entry, one_sleeper, one-Sleeps, sleeper,
  some_kernel, some_slots,
}

choose-round_robin_example :
    (k' : Kernel) × (choose (some_kernel ready)
      ≡ done (switch_to_task (task_id 1 0) (a_task (task_id 2 0) ready 0x3000), k'))
    × (k'.current ≡ task_id 2 0)
    × (k'.cpu_ticks_remaining ≡ 4)
    × (get_task k'.tasks (task_id 2 0) ≡ some (a_task (task_id 2 0) running 0x3000))
    × (get_task k'.tasks (task_id 1 0) ≡ some (put_off (a_task (task_id 1 0) running 0)))
    × Queued k'.ready_queue (
        if goes_back (task_id 1 0) (a_task (task_id 1 0) running 0) (some_kernel ready)
        then (first_ready (some_slots ready) (task_id 2 0 ∷ [])).1 ++ task_id 1 0 ∷ []
        else (first_ready (some_slots ready) (task_id 2 0 ∷ [])).1)
choose-round_robin_example =
    choose-round_robin (some_kernel ready) (task_id 2 0 ∷ []) (task_id 2 0)
      (a_task (task_id 2 0) ready 0x3000) (a_task (task_id 1 0) running 0) one-Queued
      (unfold first_ready get_task in refl) (unfold get_task in refl) refl

tick_sleep_queue-due_example :
    (q : SleepQueue) × (ys : List SleepEntry) × (tick_sleep_queue
        (with_sleep one_sleeper (some_kernel blocked))
      ≡ wake_all (due (wake_times 0 sleeper)) (with_sleep q (some_kernel blocked)))
    × Sleeps q ys
    × HeadWaits ys
    × (wake_times 0 ys ≡ waiting (wake_times 0 sleeper))
tick_sleep_queue-due_example =
    tick_sleep_queue-due (with_sleep one_sleeper (some_kernel blocked)) sleeper one-Sleeps
      (omega arith)

insert-wake_times_example :
    (ys : List SleepEntry) × Sleeps (insert (task_id 1 0) 3000 one_sleeper) ys
    × HeadWaits ys
    × (wake_times 0 ys ≡ schedule_wake 3000 (task_id 1 0) (wake_times 0 sleeper))
insert-wake_times_example =
    insert-wake_times one_sleeper sleeper (task_id 1 0) 3000 one-Sleeps (omega arith) (omega arith)
      (omega arith)

wake-blocked_example :
    (r : Result SchedulerError (Unit {0})) × (k' : Kernel) × (wake
        (task_id 2 0)
        (some_kernel blocked)
      ≡ done (r, k'))
    × (get_task k'.tasks (task_id 2 0) ≡ some (a_task (task_id 2 0) ready 0x3000))
    × (k'.threads 0x50 ≡ some a_thread)
    × (if length (task_id 2 0 ∷ []) == 256
        then (r ≡ err queue_full) × IsRing 8 (λ (a : TaskId). a) k'.ready_queue (task_id 2 0 ∷ [])
        else (r ≡ ok tt)
          × IsRing 8 (λ (a : TaskId). a) k'.ready_queue (task_id 2 0 ∷ task_id 2 0 ∷ []))
wake-blocked_example =
    wake-blocked (task_id 2 0) (some_kernel blocked) (a_task (task_id 2 0) blocked 0x3000) a_thread
      (task_id 2 0 ∷ []) (unfold get_task in refl) refl refl one-Queued

alive : AllAlive (some_kernel TaskState.dead)
unfolding AllAlive
alive id t e = refl

tombstone_cleanup-Removed_example :
    (k' : Kernel) × (tombstone_cleanup (some_kernel TaskState.dead) ≡ done k')
    × Listed k'.tombstone_queue []
    × Removed (some_kernel TaskState.dead) k' (task_id 2 0 ∷ [])
tombstone_cleanup-Removed_example =
    tombstone_cleanup-Removed (some_kernel TaskState.dead) (task_id 2 0 ∷ []) one-Listed alive

reap_dying_tasks-reaped_example :
    (k' : Kernel) × (reap_dying_tasks (some_kernel TaskState.dying) ≡ done k')
    × Listed k'.reaper_queue []
    × ((other : TaskId)
        → get_task k'.tasks other
          ≡ reaped (named other (task_id 2 0 ∷ [])) (get_task (some_slots TaskState.dying) other))
reap_dying_tasks-reaped_example =
    reap_dying_tasks-reaped (some_kernel TaskState.dying) (task_id 2 0 ∷ []) one-Listed

abbrev grown : List TaskSlot
grown =
    a_slot (a_task idle running 0x1000)
    ∷ a_slot (a_task (task_id 1 0) running 0)
    ∷ a_slot (a_task (task_id 2 0) ready 0x3000)
    ∷ a_slot (a_task (task_id 3 5) ready 0x7000)
    ∷ []

insert_task-ok_example :
    (get_task (some_slots ready) (task_id 3 5) ≡ none)
    × (length grown ≡ length (some_slots ready))
    × ((other : TaskId)
        → get_task grown other ≡ (
            if same_id other (task_id 3 5)
            then some (admitted (a_task idle blocked 0x7000) (task_id 3 5))
            else get_task (some_slots ready) other))
insert_task-ok_example =
    insert_task-ok (some_slots ready) (a_task idle blocked 0x7000) (task_id 3 5) grown
      (unfold insert_task insert_from in refl)

-- The killer of the task in the second slot is queued.
abbrev a_call : SystemTask
a_call = record { function = task_killer; func_arg = compress_task_id (task_id 2 0) }

abbrev calling_kernel : Kernel
calling_kernel = with_system (one_entry (some a_call) none) (some_kernel ready)

one-SystemQueued : SystemQueued (one_entry (some a_call) none) (a_call ∷ [])
one-SystemQueued = record {
  head_bound = omega arith;
  tail_bound = omega arith;
  fits = omega arith;
  tail_at = refl;
  count = refl;
  entries = refl;
}

drain_system_tasks-doomed_example :
    (k' : Kernel) × (drain_system_tasks calling_kernel ≡ done k')
    × SystemQueued k'.system_tasks []
    × AllAlive k'
    × ((other : TaskId)
        → get_task k'.tasks other
          ≡ doomed (named other (victims (a_call ∷ []))) (get_task (some_slots ready) other))
drain_system_tasks-doomed_example =
    drain_system_tasks-doomed calling_kernel (a_call ∷ []) one-SystemQueued
      (unfold AllAlive in λ id t e. refl)

exit-drain_example :
    (q : Ring (Option SystemTask)) × SystemQueued q []
    × (drain_system_tasks (exit a_thread (some_kernel ready))
        ≡ kill_task (compress_task_id (task_id 2 0)) (with_system q (some_kernel ready)))
    × (expand_task_id (compress_task_id (task_id 2 0)) ≡ task_id 2 0)
exit-drain_example =
    exit-drain (some_kernel ready) a_thread (task_id 2 0) refl refl (omega arith) (omega arith)
      (IsRing-empty 5 (λ (t : SystemTask). some t) none)

kill_task-Killed_example :
    (k' : Kernel) × (kill_task 0x01 (some_kernel ready) ≡ done k')
    × Killed
        (some_kernel ready)
        k'
        (expand_task_id 0x01)
        (a_task (task_id 1 0) running 0)
        a_thread
        (task_id 2 0 ∷ [])
kill_task-Killed_example =
    kill_task-Killed 0x01 (some_kernel ready) (a_task (task_id 1 0) running 0) a_thread
      (task_id 2 0 ∷ []) (unfold expand_task_id get_task in refl) refl one-Listed (omega arith)
