-- ===== src/Tasks/Reaper/Doom.antt =====
-- What `drain_system_tasks` comes to in the task table.
use crap_os.Base.{
  ℕ, ap, sym, inl, inr, true, false, Bool, Bool-cases, Option, none, some, Option-cases, List, [],
  refl, arith, ◌≡◌, ◌∷◌, ◌||◌, if◌then◌else◌, ◌∙◌,
}
use crap_os.Helpers.TaskCode.{expand_task_id}
use crap_os.Ring.{Ring, push}
use crap_os.Tasks.Ids.{TaskId, same_id}
use crap_os.Tasks.Outcome.{Outcome, done}
use crap_os.Tasks.Reaper.{
  call_system_task, drain_system_tasks, kill_task, or_same, queue_task_reaper,
}
use crap_os.Tasks.Reaper.Cleanup.{AllAlive}
use crap_os.Tasks.Reaper.Drain.{
  SystemQueued, call_all, drain_system_tasks-call_all, kill-live, mark-live, marked, signal,
  with_system,
}
use crap_os.Tasks.Reaper.Reap.{named}
use crap_os.Tasks.State.{Kernel, SystemFunction, SystemTask, Task, TaskState, Thread, task_killer}
use crap_os.Tasks.Table.{get_task, is_some}
use crap_os.Tasks.Table.Laws.{get_task-put_task, same_id→eq}

-- A task that is killed is dying.
abbrev pub doomed : Bool → Option Task → Option Task
doomed b none = none
doomed b (some t) = some (if b then record t { state = TaskState.dying } else t)

doomed-false : (o : Option Task) → doomed false o ≡ o
doomed-false none = refl
doomed-false (some t) = refl

doomed-or : (a b : Bool) (o : Option Task) → doomed b (doomed (a || false) o) ≡ doomed (a || b) o
doomed-or a b none = refl
doomed-or true true (some t) = refl
doomed-or true false (some t) = refl
doomed-or false b (some t) = refl

-- The ids that the calls name.
abbrev pub victims : List SystemTask → List TaskId
victims [] = []
victims (t ∷ ts) = expand_task_id t.func_arg ∷ victims ts

-- The kernel after the calls for some ids.
record Doomed (k k' : Kernel) (ids : List TaskId) : Type 0 where
  alive : AllAlive k'
  system : k'.system_tasks ≡ k.system_tasks
  tasks :
      (other : TaskId) → get_task k'.tasks other ≡ doomed (named other ids) (get_task k.tasks other)

queued_lem :
    (id : TaskId) (k : Kernel)
    → (q : Ring (Option TaskId)) × (or_same k (queue_task_reaper id k)
        ≡ record k { reaper_queue = q })
unfolding queue_task_reaper
queued_lem id k = elim (Option-cases (push 6 (some id) k.reaper_queue)) [
  | inl p ↦ (k.reaper_queue, rw (p, queue_task_reaper) refl)
  | inr (q, p) ↦ (q, rw (p, queue_task_reaper) refl)
]

signal_lem : (b : Bool) (k : Kernel) → (f : Bool) × (signal b k ≡ record k { force_reschedule = f })
signal_lem true k = (true, refl)
signal_lem false k = (k.force_reschedule, refl)

marked-Doomed :
    (code : ℕ) (k : Kernel) (t : Task) (th : Thread)
    → AllAlive k
    → get_task k.tasks (expand_task_id code) ≡ some t
    → k.threads t.thread ≡ some th
    → Doomed k (marked code k t th) (expand_task_id code ∷ [])
unfolding AllAlive
marked-Doomed code k t th alive e l =
    let id = expand_task_id code in
    let dying : Task = record t { state = TaskState.dying } in
    let after = λ (i : TaskId). get_task-put_task k.tasks id i t dying e in
    record {
      alive = λ i u h. ground (arith, after i, alive i u);
      system = refl;
      tasks = λ other.
          (after other ∙ elim (Bool-cases (same_id other id)) [
            | inl s ↦
                (let here = ap (get_task k.tasks) (same_id→eq other id s) ∙ e in rw (s, here) refl)
            | inr s ↦ rw s (sym (doomed-false (get_task k.tasks other)))
          ]);
    }

kill_task-Doomed :
    (code : ℕ) (k : Kernel)
    → AllAlive k
    → (k' : Kernel) × (kill_task code k ≡ done k') × Doomed k k' (expand_task_id code ∷ [])
unfolding kill_task AllAlive
kill_task-Doomed code k alive = elim (Option-cases (get_task k.tasks (expand_task_id code))) [
  | inl e ↦
      let id = expand_task_id code in
      let (q, same) = queued_lem id k in
      (
        record k { reaper_queue = q },
        rw (e, kill_task) (ap done same),
        record {
          alive = alive;
          system = refl;
          tasks = λ other. elim (Bool-cases (same_id other id)) [
            | inl s ↦ (let here = ap (get_task k.tasks) (same_id→eq other id s) ∙ e in rw here refl)
            | inr s ↦ rw s (sym (doomed-false (get_task k.tasks other)))
          ];
        },
      )
  | inr (t, e) ↦ elim (Option-cases (k.threads t.thread)) [
    | inl l ↦
        (let a = alive (expand_task_id code) t e in let a' = ap is_some l in absurd (ground arith))
    | inr (th, l) ↦
        let id = expand_task_id code in
        let k1 = marked code k t th in
        let (q, same) = queued_lem id k1 in
        let k2 : Kernel = record k1 { reaper_queue = q } in
        let (f, flag) = signal_lem (same_id id k.current) k2 in
        let d = marked-Doomed code k t th alive e l in
        (
          record k2 { force_reschedule = f },
          kill-live code k k1 t e (mark-live code k t th l)
              ∙ ap (λ j. done (signal (same_id id k.current) j)) same
              ∙ ap done flag,
          record { alive = d.alive; system = refl; tasks = d.tasks },
        )
  ]
]

call-kill : (t : SystemTask) (k : Kernel) → call_system_task t k ≡ kill_task t.func_arg k
call-kill t k = go t.function
  where
    go :
        (f : SystemFunction)
        → (elim f as (λ _. Outcome Kernel) [ task_killer ↦ kill_task t.func_arg k ])
          ≡ kill_task t.func_arg k
    go task_killer = refl

call_all-Doomed :
    (ts : List SystemTask) (k : Kernel)
    → AllAlive k
    → (k' : Kernel) × (call_all ts k ≡ done k') × Doomed k k' (victims ts)
call_all-Doomed [] k alive = (
  k,
  refl,
  record {
    alive = alive;
    system = refl;
    tasks = λ other. sym (doomed-false (get_task k.tasks other));
  },
)
call_all-Doomed (t ∷ ts) k alive =
    let (k1, first, d) = kill_task-Doomed t.func_arg k alive in
    let (k2, rest, d') = call_all-Doomed ts k1 d.alive in
    (
      k2,
      rw (call-kill t k, first) rest,
      record {
        alive = d'.alive;
        system = d'.system ∙ d.system;
        tasks = λ other.
            (d'.tasks other
              ∙ ap (doomed (named other (victims ts))) (d.tasks other)
              ∙ doomed-or (same_id other (expand_task_id t.func_arg)) (named other (victims ts))
                  (get_task k.tasks other));
      },
    )

-- Every task of the table has a live thread. Then `drain_system_tasks` returns, with an empty queue of calls.
-- The tasks that are named by the calls that were queued are dying, and every other lookup gives what it gave.
-- Every task still has a live thread.
pub drain_system_tasks-doomed :
    (k : Kernel) (ts : List SystemTask)
    → SystemQueued k.system_tasks ts
    → AllAlive k
    → (k' : Kernel) × (drain_system_tasks k ≡ done k')
      × SystemQueued k'.system_tasks []
      × AllAlive k'
      × ((other : TaskId)
          → get_task k'.tasks other ≡ doomed (named other (victims ts)) (get_task k.tasks other))
unfolding AllAlive
drain_system_tasks-doomed k ts h alive =
    let (q, empty, calls) = drain_system_tasks-call_all k ts h in
    let (k', returned, d) = call_all-Doomed ts (with_system q k) alive in
    (k', calls ∙ returned, rw d.system empty, d.alive, d.tasks)
