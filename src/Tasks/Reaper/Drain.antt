-- ===== src/Tasks/Reaper/Drain.antt =====
-- `drain_system_tasks`: the queued calls are made, in their order.
use crap_os.Base.{
  ℕ, zero, suc, ◌+◌, ◌^◌, ◌<◌, ◌≡◌, refl, update, ap, ◌∙◌, Bool, true, false, Option, none, some,
  if◌then◌else◌, arith, Option-cases, inl, inr, List, [], ◌∷◌, length,
}
use crap_os.Helpers.TaskCode.{compress_task_id, expand_task_id, expand-compress}
use crap_os.Ring.{Ring, pop_take, push}
use crap_os.Ring.Fifo.{IsRing, take_empty, take_first, push_room}
use crap_os.Tasks.Ids.{TaskId, same_id}
use crap_os.Tasks.Outcome.{Outcome, done, panic, no_fuel, ◌>>=◌}
use crap_os.Tasks.Reaper.{
  kill_task, mark_dying, queue_task_reaper, or_same, drain_loop, drain_system_tasks,
  call_system_task, exit, queue_system_task,
}
use crap_os.Tasks.State.{
  Task, TaskState, Thread, ThreadState, Kernel, SystemTask, SystemFunction, task_killer, active,
}
use crap_os.Tasks.Table.{get_task, put_task}

abbrev pub with_system : Ring (Option SystemTask) → Kernel → Kernel
with_system q k = record k { system_tasks = q }

abbrev keep : Ring (Option SystemTask) → Kernel → Outcome Kernel
keep q k = done (with_system q k)

queue-with_system :
    (q : Ring (Option SystemTask)) (id : TaskId) (k : Kernel)
    → or_same (with_system q k) (queue_task_reaper id (with_system q k))
      ≡ with_system q (or_same k (queue_task_reaper id k))
unfolding queue_task_reaper
queue-with_system q id k = elim (Option-cases (push 6 (some id) k.reaper_queue)) [
  | inl p ↦ rw (p, queue_task_reaper) refl
  | inr (r, p) ↦ rw (p, queue_task_reaper) refl
]

-- The end of `kill_task`, when the task is marked.
abbrev pub signal : Bool → Kernel → Kernel
signal b k = if b then record k { force_reschedule = true } else k

signal-with_system :
    (q : Ring (Option SystemTask)) (b : Bool) (k : Kernel)
    → signal b (with_system q k) ≡ with_system q (signal b k)
signal-with_system q true k = refl
signal-with_system q false k = refl

done-signal :
    (b : Bool) (k : Kernel)
    → (if b then done (record k { force_reschedule = true }) else done k) ≡ done (signal b k)
done-signal true k = refl
done-signal false k = refl

pub kill-live :
    (code : ℕ) (k k' : Kernel) (t : Task)
    → get_task k.tasks (expand_task_id code) ≡ some t
    → mark_dying (expand_task_id code) t k ≡ done k'
    → kill_task code k
      ≡ done (
          signal
            (same_id (expand_task_id code) k.current)
            (or_same k' (queue_task_reaper (expand_task_id code) k')))
unfolding kill_task
kill-live code k k' t e m =
    rw (e, m, kill_task)
      (done-signal (same_id (expand_task_id code) k.current)
        (or_same k' (queue_task_reaper (expand_task_id code) k')))

abbrev pub marked : ℕ → Kernel → Task → Thread → Kernel
marked code k t th = record k {
  tasks = put_task k.tasks (expand_task_id code) (record t { state = TaskState.dying });
  threads = update k.threads t.thread (some (record th { state = ThreadState.dying }));
}

pub mark-live :
    (code : ℕ) (k : Kernel) (t : Task) (th : Thread)
    → k.threads t.thread ≡ some th
    → mark_dying (expand_task_id code) t k ≡ done (marked code k t th)
mark-live code k t th l = rw l refl

-- `kill_task` neither reads nor writes the queue of system tasks.
kill-with_system :
    (q : Ring (Option SystemTask)) (code : ℕ) (k : Kernel)
    → kill_task code (with_system q k) ≡ (kill_task code k >>= keep q)
unfolding kill_task
kill-with_system q code k = elim (Option-cases (get_task k.tasks (expand_task_id code))) [
  | inl e ↦ rw (e, kill_task) (ap done (queue-with_system q (expand_task_id code) k))
  | inr (t, e) ↦ elim (Option-cases (k.threads t.thread)) [
    | inl l ↦ rw (e, l, kill_task) refl
    | inr (th, l) ↦
        let id = expand_task_id code in
        let k' = marked code k t th in
        rw
          (
            kill-live code k k' t e (mark-live code k t th l),
            kill-live code (with_system q k) (with_system q k') t e
                (mark-live code (with_system q k) t th l),
          )
          (ap done (
            ap (signal (same_id id k.current)) (queue-with_system q id k')
            ∙ signal-with_system q (same_id id k.current) (or_same k' (queue_task_reaper id k'))))
  ]
]

-- The calls of the system tasks, one after the other.
abbrev pub call_all : List SystemTask → Kernel → Outcome Kernel
call_all [] k = done k
call_all (t ∷ ts) k = call_system_task t k >>= call_all ts

abbrev pub SystemQueued : Ring (Option SystemTask) → List SystemTask → Type 0
SystemQueued q ts = IsRing 5 some q ts

call-with_system :
    (q : Ring (Option SystemTask)) (t : SystemTask) (k : Kernel)
    → call_system_task t (with_system q k) ≡ (call_system_task t k >>= keep q)
call-with_system q t k = go t.function
  where
    go :
        (f : SystemFunction)
        → (elim f as (λ _. Outcome Kernel) [ task_killer ↦ kill_task t.func_arg (with_system q k) ])
          ≡ ((elim f as (λ _. Outcome Kernel) [ task_killer ↦ kill_task t.func_arg k ]) >>= keep q)
    go task_killer = kill-with_system q t.func_arg k

-- The queue when everything is taken out.
unfoldable emptied : ℕ → Ring (Option SystemTask) → Ring (Option SystemTask)
emptied zero q = q
emptied (suc n) q =
    let rest = emptied n (pop_take 5 q).1 in
    elim (pop_take 5 q).0 [ none ↦ (pop_take 5 q).1 | some t ↦ rest ]

-- The loop ends with an empty queue, and makes the queued calls.
drain_loop-call_all :
    (fuel : ℕ) (k : Kernel) (ts : List SystemTask)
    → SystemQueued k.system_tasks ts
    → length ts < fuel
    → SystemQueued (emptied fuel k.system_tasks) []
      × (drain_loop fuel k ≡ call_all ts (with_system (emptied fuel k.system_tasks) k))
unfolding drain_loop emptied
drain_loop-call_all zero k ts h enough = absurd (omega arith)
drain_loop-call_all (suc fuel) k [] h enough =
    let empty = take_empty 5 k.system_tasks h in
    let first : (pop_take 5 k.system_tasks).0 ≡ none = ap (λ a. a.0) empty in
    let left : SystemQueued (pop_take 5 k.system_tasks).1 [] = rw empty h in
    (rw (first, emptied) left, rw (first, drain_loop, emptied) refl)
drain_loop-call_all (suc fuel) k (t ∷ ts) h enough =
    let (q', taken, h'') = take_first 5 k.system_tasks t ts h in
    let first : (pop_take 5 k.system_tasks).0 ≡ some t = ap (λ a. a.0) taken in
    let q = (pop_take 5 k.system_tasks).1 in
    let h' : SystemQueued q ts = rw taken h'' in
    let rest = λ (k' : Kernel). drain_loop-call_all fuel (with_system q k') ts h' (omega arith) in
    (
      rw (first, emptied) (rest k).0,
      rw (first, drain_loop, emptied)
          (rw (call-with_system q t k, call-with_system (emptied fuel q) t k)
            (after q (λ k'. (rest k').1) (call_system_task t k))),
    )
  where
    after :
        (q : Ring (Option SystemTask))
        → ((k' : Kernel)
            → drain_loop fuel (with_system q k') ≡ call_all ts (with_system (emptied fuel q) k'))
        → (o : Outcome Kernel)
        → ((o >>= keep q) >>= drain_loop fuel) ≡ ((o >>= keep (emptied fuel q)) >>= call_all ts)
    after q loop panic = refl
    after q loop no_fuel = refl
    after q loop (done k') = loop k'

-- The drain makes exactly the calls that are queued when it starts, in their order, beside a queue
-- that is empty. It does not run out of fuel, since no call queues another one.
pub drain_system_tasks-call_all :
    (k : Kernel) (ts : List SystemTask)
    → SystemQueued k.system_tasks ts
    → (q : Ring (Option SystemTask)) × SystemQueued q []
      × (drain_system_tasks k ≡ call_all ts (with_system q k))
unfolding drain_system_tasks
drain_system_tasks-call_all k ts h =
    let n = h.count in
    let (empty, calls) =
      drain_loop-call_all (k.system_tasks.queue_len + 1) k ts h (omega (arith, n)) in
    (emptied (k.system_tasks.queue_len + 1) k.system_tasks, empty, calls)

-- A thread that is active and has a task exits while no system task is queued. Then the next drain
-- kills that task, by a number from which `kill_task` reads the same id, and nothing else happens.
pub exit-drain :
    (k : Kernel) (th : Thread) (id : TaskId)
    → th.state ≡ active
    → th.task_id ≡ some id
    → id.slot_index < 2 ^ 56
    → id.slot_generation < 2 ^ 8
    → SystemQueued k.system_tasks []
    → (q : Ring (Option SystemTask)) × SystemQueued q []
      × (drain_system_tasks (exit th k) ≡ kill_task (compress_task_id id) (with_system q k))
      × (expand_task_id (compress_task_id id) ≡ id)
unfolding exit queue_system_task
exit-drain k th id s i small byte h =
    let call : SystemTask = record { function = task_killer; func_arg = compress_task_id id } in
    let (q1, pushed, h1) = push_room 5 some call k.system_tasks [] h (omega arith) in
    let queued : exit th k ≡ with_system q1 k = rw (s, i, pushed, exit, queue_system_task) refl in
    let (q, empty, drained) = drain_system_tasks-call_all (with_system q1 k) (call ∷ []) h1 in
    (
      q,
      empty,
      ap drain_system_tasks queued
          ∙ drained
          ∙ one (kill_task (compress_task_id id) (with_system q k)),
      expand-compress id small byte,
    )
  where
    one : (o : Outcome Kernel) → (o >>= call_all []) ≡ o
    one (done k') = refl
    one panic = refl
    one no_fuel = refl
