-- ===== src/Tasks/Table.antt =====
-- The global task table: `TaskSlot`s with generations.
pub mod Laws
use crap_os.Base.{
  ℕ, zero, suc, ◌+◌, ◌%◌, ◌^◌, Bool, true, false, ◌&&◌, Option, none, some, List, [], ◌∷◌, Result,
  ok, err, get_elem?, set, replicate, ◌==◌, if◌then◌else◌, ◌>>=◌,
}
use crap_os.Tasks.Ids.{TaskId, task_id}
use crap_os.Tasks.State.{TaskState, Task, TaskSlot, SchedulerError, task_table_full, ready}

abbrev pub max_tasks : ℕ
max_tasks = 256

abbrev pub is_some : {A : Type 0} → Option A → Bool
is_some none = false
is_some (some a) = true

abbrev pub empty_slot : TaskSlot
empty_slot = record { task = none; slot_generation = 0 }

abbrev pub empty_table : List TaskSlot
empty_table = replicate max_tasks empty_slot

-- Slot 0 is the idle task's.
unfoldable pub insert_idle_task : Task → List TaskSlot → List TaskSlot
insert_idle_task t slots = set slots 0 (record { task = some t; slot_generation = 0 })

abbrev pub admitted : Task → TaskId → Task
admitted t i = record t { id = i; state = ready }

-- A slot that the loop passes stays in front of what it does to the others.
abbrev pub passed :
    TaskSlot
    → Result SchedulerError (TaskId × List TaskSlot)
    → Result SchedulerError (TaskId × List TaskSlot)
passed slot (err e) = err e
passed slot (ok (found, slots)) = ok (found, slot ∷ slots)

-- The loop over the slots: the index of the first slot that is left, and these slots. The task
-- goes to the first empty one.
unfoldable pub insert_from :
    ℕ → List TaskSlot → Task → Result SchedulerError (TaskId × List TaskSlot)
insert_from i [] t = err task_table_full
insert_from i (slot ∷ slots) t =
    let here = task_id i slot.slot_generation in
    let rest = insert_from (i + 1) slots t in
    if is_some slot.task
    then passed slot rest
    else ok (here, record slot { task = some (admitted t here) } ∷ slots)

unfoldable pub insert_task : Task → List TaskSlot → Result SchedulerError (TaskId × List TaskSlot)
insert_task t slots = insert_from 0 slots t

-- The slot of an id that is not stale.
unfoldable pub get_task : List TaskSlot → TaskId → Option Task
get_task slots id = get_elem? slots id.slot_index >>= λ slot.
    if (slot.slot_generation == id.slot_generation) && is_some slot.task then slot.task else none

-- A write through the reference that `get_task_mut` returned.
unfoldable pub put_task : List TaskSlot → TaskId → Task → List TaskSlot
put_task slots id t = elim (get_elem? slots id.slot_index) [
  | none ↦ slots
  | some slot ↦ set slots id.slot_index (record slot { task = some t })
]

-- The last part of `remove_task`: the slot is emptied and gets the next generation.
unfoldable pub free_slot : List TaskSlot → TaskId → List TaskSlot
free_slot slots id = elim (get_elem? slots id.slot_index) [
  | none ↦ slots
  | some slot ↦
      set slots id.slot_index
        (record { task = none; slot_generation = (slot.slot_generation + 1) % 2 ^ 8 })
]
