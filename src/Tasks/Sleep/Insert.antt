-- ===== src/Tasks/Sleep/Insert.antt =====
-- An insertion into the sleep queue, by the wake times of the tasks.
use crap_os.Base.{
  ℕ, ◌<◌, ◌∙◌, ap, ◌≡◌, ◌≢◌, arith, List, [], ◌∷◌, length, leb, Bool-cases, inl, inr,
}
use crap_os.Tasks.Ids.{TaskId}
use crap_os.Tasks.Sleep.{SleepEntry, SleepQueue, insert, max_sleep_entries}
use crap_os.Tasks.Sleep.Delta.{wake_times, schedule_wake, insert_delta, wake_times-insert_delta}
use crap_os.Tasks.Sleep.Refine.{Sleeps, insert-Sleeps}
use crap_os.Tasks.Sleep.Tick.{HeadWaits}

waits :
    (r : ℕ) (id : TaskId) (xs : List SleepEntry)
    → r ≢ 0
    → HeadWaits xs
    → HeadWaits (insert_delta r id xs)
unfolding insert_delta
waits r id [] pos h = omega arith
waits r id (x ∷ xs) pos h = elim (Bool-cases (leb r x.delta_ticks)) [
  | inl e ↦ ground arith
  | inr e ↦ ground arith
]

-- A task with ticks to sleep goes into a queue with room. Then the task wakes after these ticks, and
-- every other task when it would have. A head that waits still does.
pub insert-wake_times :
    (q : SleepQueue) (xs : List SleepEntry) (id : TaskId) (ticks : ℕ)
    → Sleeps q xs
    → HeadWaits xs
    → ticks ≢ 0
    → length xs < max_sleep_entries
    → (ys : List SleepEntry) × Sleeps (insert id ticks q) ys
      × HeadWaits ys
      × (wake_times 0 ys ≡ schedule_wake ticks id (wake_times 0 xs))
insert-wake_times q xs id ticks h head pos room = (
  insert_delta ticks id xs,
  insert-Sleeps q xs id ticks h pos room,
  waits ticks id xs pos head,
  wake_times-insert_delta 0 ticks id xs
      ∙ ap (λ t. schedule_wake t id (wake_times 0 xs)) (omega arith),
)
