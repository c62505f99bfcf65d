-- ===== src/Tasks/Sleep.antt =====
-- The sleep queue (crap_os/src/task_scheduler/sleep_queue.rs): ticks are stored as differences.
pub mod Array
pub mod Delta
pub mod Insert
pub mod Refine
pub mod Tick
use crap_os.Base.{
  ◌∷◌, [], List, ℕ, zero, suc, ◌+◌, ◌-◌, Bool, true, false, Option, none, some, ltb, leb, ◌==◌,
  if◌then◌else◌, update,
}
use crap_os.Tasks.Ids.{TaskId}

abbrev pub max_sleep_entries : ℕ
max_sleep_entries = 256

pub record SleepEntry : Type 0 where
  pub delta_ticks : ℕ
  pub task_id : TaskId

-- The array of slots is a function of the index; the active entries are the first `queue_len`.
pub record SleepQueue : Type 0 where
  pub entries : ℕ → Option SleepEntry
  pub queue_len : ℕ

abbrev pub empty_queue : SleepQueue
empty_queue = record { entries = λ _. none; queue_len = 0 }

-- `entry.as_ref().unwrap().delta_ticks`. Every slot below `queue_len` is filled.
abbrev pub delta_at : (ℕ → Option SleepEntry) → ℕ → ℕ
delta_at entries i = elim (entries i) [ none ↦ 0 | some entry ↦ entry.delta_ticks ]

-- The search for the position, with the rounds left, the index and the ticks that remain.
unfoldable pub find_position : (ℕ → Option SleepEntry) → ℕ → ℕ → ℕ → ℕ × ℕ
find_position entries zero i remaining = (i, remaining)
find_position entries (suc rounds) i remaining =
    let delta = delta_at entries i in
    let next = find_position entries rounds (i + 1) (remaining - delta) in
    if leb remaining delta then (i, remaining) else next

-- `while i > insert_pos { entries[i] = entries[i - 1].take(); i -= 1 }`, with `i - insert_pos`
-- rounds left.
unfoldable pub shift_right : ℕ → ℕ → (ℕ → Option SleepEntry) → ℕ → Option SleepEntry
shift_right zero i entries = entries
shift_right (suc rounds) i entries =
    shift_right rounds (i - 1) (update (update entries i (entries (i - 1))) (i - 1) none)

-- The successor's ticks count from the new entry on.
abbrev pub shorten : ℕ → Option SleepEntry → Option SleepEntry
shorten remaining none = none
shorten remaining (some next) = some (record next { delta_ticks = next.delta_ticks - remaining })

-- The rest of `insert`, from the position that the search found.
unfoldable pub place : ℕ → ℕ → TaskId → SleepQueue → SleepQueue
unfolding shift_right
place insert_pos remaining task_id q =
    let shifted = shift_right (q.queue_len - insert_pos) q.queue_len q.entries in
    let placed =
      update shifted insert_pos (some (record { delta_ticks = remaining; task_id = task_id })) in
    let fixed = update placed (insert_pos + 1) (shorten remaining (placed (insert_pos + 1))) in
    record {
      entries = (if ltb (insert_pos + 1) (q.queue_len + 1) then fixed else placed);
      queue_len = q.queue_len + 1;
    }

unfoldable pub insert : TaskId → ℕ → SleepQueue → SleepQueue
insert task_id ticks q =
    if ticks == 0
    then q
    else if q.queue_len == max_sleep_entries
    then q
    else (let (insert_pos, remaining) = find_position q.entries q.queue_len 0 ticks in
        place insert_pos remaining task_id q)

-- The head's ticks, less one.
unfoldable pub count_down : SleepQueue → SleepQueue
count_down q = elim (q.entries 0) [
  | none ↦ q
  | some head ↦
      if ltb 0 head.delta_ticks
      then record q {
        entries = update q.entries 0 (some (record head { delta_ticks = head.delta_ticks - 1 }));
      }
      else q
]

-- `for i in 0..queue_len - 1 { entries[i] = entries[i + 1].take() }`: the rounds left, the index.
unfoldable pub shift_left : ℕ → ℕ → (ℕ → Option SleepEntry) → ℕ → Option SleepEntry
shift_left zero i entries = entries
shift_left (suc rounds) i entries =
    shift_left rounds (i + 1) (update (update entries i (entries (i + 1))) (i + 1) none)

-- The head is taken out if its ticks are over.
unfoldable pub pop_expired : SleepQueue → Option (TaskId × SleepQueue)
unfolding shift_left
pop_expired q = if q.queue_len == 0 then none else elim (q.entries 0) [
  | none ↦ none
  | some head ↦
      if head.delta_ticks == 0
      then some (
        head.task_id,
        record {
          entries = shift_left (q.queue_len - 1) 0 (update q.entries 0 none);
          queue_len = q.queue_len - 1;
        },
      )
      else none
]

-- One tick of the queue by itself, without the calls of `wake`: the ids to wake, in order.
unfoldable pub expire : ℕ → SleepQueue → List TaskId × SleepQueue
expire zero q = ([], q)
expire (suc fuel) q = elim (pop_expired q) [
  | none ↦ ([], q)
  | some (id, q') ↦ let (ids, rest) = expire fuel q' in (id ∷ ids, rest)
]
