-- ===== src/Tasks/Reaper/Reap.antt =====
-- `reap_dying_tasks`: what it does to the task table.
use crap_os.Base.{
  ℕ, zero, suc, ◌+◌, ◌<◌, ◌≡◌, refl, ap, ◌∙◌, sym, Bool, true, false, ◌&&◌, ◌||◌, Option, none,
  some, if◌then◌else◌, arith, Option-cases, Bool-cases, inl, inr, List, [], ◌∷◌, length,
}
use crap_os.Ring.{pop_take, push}
use crap_os.Ring.Fifo.{take_empty, take_first}
use crap_os.Tasks.Ids.{TaskId, same_id}
use crap_os.Tasks.Outcome.{done}
use crap_os.Tasks.Reaper.{reap_task, reap_loop, reap_dying_tasks}
use crap_os.Tasks.Reaper.Cleanup.{Listed}
use crap_os.Tasks.State.{Task, TaskState, Kernel, same_state}
use crap_os.Tasks.Table.{get_task, put_task}
use crap_os.Tasks.Table.Laws.{get_task-put_task, same_id→eq}

-- Whether a list names an id.
abbrev pub named : TaskId → List TaskId → Bool
named id [] = false
named id (i ∷ ids) = same_id id i || named id ids

-- A dying task that is reaped is dead.
abbrev pub reaped : Bool → Option Task → Option Task
reaped b none = none
reaped b (some t) =
    some
      (if b && same_state t.state TaskState.dying then record t { state = TaskState.dead } else t)

reaped-false : (o : Option Task) → reaped false o ≡ o
reaped-false none = refl
reaped-false (some t) = refl

reaped-dead :
    (b : Bool) (t : Task)
    → reaped b (some (record t { state = TaskState.dead }))
      ≡ some (record t { state = TaskState.dead })
reaped-dead true t = refl
reaped-dead false t = refl

reaped-other :
    (b : Bool) (t : Task) → same_state t.state TaskState.dying ≡ false → reaped b (some t) ≡ some t
reaped-other true t e = rw e refl
reaped-other false t e = refl

reaped-or : (a b : Bool) (o : Option Task) → reaped b (reaped a o) ≡ reaped (a || b) o
reaped-or a b none = refl
reaped-or true b (some t) = elim (Bool-cases (same_state t.state TaskState.dying)) [
  | inl e ↦ rw e (reaped-dead b t)
  | inr e ↦ rw e (reaped-other b t e)
]
reaped-or false b (some t) = refl

-- The table after one id of the queue, whose task is dying.
reap_task-dying :
    (id : TaskId) (k : Kernel) (t : Task)
    → get_task k.tasks id ≡ some t
    → same_state t.state TaskState.dying ≡ true
    → ((reap_task id k).tasks ≡ put_task k.tasks id (record t { state = TaskState.dead }))
      × ((reap_task id k).reaper_queue ≡ k.reaper_queue)
reap_task-dying id k t e b = elim (Option-cases (push 6 (some id) k.tombstone_queue)) [
  | inl p ↦ rw (e, b, p, reap_task) (refl, refl)
  | inr (q, p) ↦ rw (e, b, p, reap_task) (refl, refl)
]

reap_task-kept :
    (id : TaskId) (k : Kernel) (t : Task)
    → get_task k.tasks id ≡ some t
    → same_state t.state TaskState.dying ≡ false
    → reap_task id k ≡ k
reap_task-kept id k t e b = rw (e, b, reap_task) refl

-- One id of the queue. The reaper queue, which the caller holds, is left alone.
reap_task-reaped :
    (id : TaskId) (k : Kernel)
    → ((reap_task id k).reaper_queue ≡ k.reaper_queue)
      × ((other : TaskId)
          → get_task (reap_task id k).tasks other
            ≡ reaped (same_id other id) (get_task k.tasks other))
reap_task-reaped id k = elim (Option-cases (get_task k.tasks id)) [
  | inl e ↦
      let same : reap_task id k ≡ k = rw (e, reap_task) refl in
      (
        ap (λ (j : Kernel). j.reaper_queue) same,
        λ other.
            ap (λ (j : Kernel). get_task j.tasks other) same
            ∙ elim (Bool-cases (same_id other id)) [
              | inl s ↦
                  (let none_here = ap (get_task k.tasks) (same_id→eq other id s) ∙ e in
                    rw none_here refl)
              | inr s ↦ rw s (sym (reaped-false (get_task k.tasks other)))
            ],
      )
  | inr (t, e) ↦ elim (Bool-cases (same_state t.state TaskState.dying)) [
    | inl b ↦
        let (table, queue) = reap_task-dying id k t e b in
        (
          queue,
          λ other.
              ap (λ s. get_task s other) table
              ∙ get_task-put_task k.tasks id other t (record t { state = TaskState.dead }) e
              ∙ elim (Bool-cases (same_id other id)) [
                | inl s ↦
                    let here = ap (get_task k.tasks) (same_id→eq other id s) ∙ e in
                    rw (s, here, b) refl
                | inr s ↦ rw s (sym (reaped-false (get_task k.tasks other)))
              ],
        )
    | inr b ↦
        let same = reap_task-kept id k t e b in
        (
          ap (λ (j : Kernel). j.reaper_queue) same,
          λ other.
              ap (λ (j : Kernel). get_task j.tasks other) same
              ∙ elim (Bool-cases (same_id other id)) [
                | inl s ↦
                    let here = ap (get_task k.tasks) (same_id→eq other id s) ∙ e in
                    rw (s, here) (sym (reaped-other true t b))
                | inr s ↦ rw s (sym (reaped-false (get_task k.tasks other)))
              ],
        )
  ]
]

reap_loop-reaped :
    (fuel : ℕ) (k : Kernel) (ids : List TaskId)
    → Listed k.reaper_queue ids
    → length ids < fuel
    → (k' : Kernel) × (reap_loop fuel k ≡ done k')
      × Listed k'.reaper_queue []
      × ((other : TaskId)
          → get_task k'.tasks other ≡ reaped (named other ids) (get_task k.tasks other))
unfolding reap_loop
reap_loop-reaped zero k ids h enough = absurd (omega arith)
reap_loop-reaped (suc fuel) k [] h enough =
    let empty = take_empty 6 k.reaper_queue h in
    let first : (pop_take 6 k.reaper_queue).0 ≡ none = ap (λ a. a.0) empty in
    (
      record k { reaper_queue = (pop_take 6 k.reaper_queue).1 },
      rw (first, reap_loop) refl,
      rw empty h,
      λ other. sym (reaped-false (get_task k.tasks other)),
    )
reap_loop-reaped (suc fuel) k (id ∷ ids) h enough =
    let (q', taken, h'') = take_first 6 k.reaper_queue id ids h in
    let first : (pop_take 6 k.reaper_queue).0 ≡ some id = ap (λ a. a.0) taken in
    let q = (pop_take 6 k.reaper_queue).1 in
    let h' : Listed q ids = rw taken h'' in
    let k1 = reap_task id (record k { reaper_queue = q }) in
    let (same, one) = reap_task-reaped id (record k { reaper_queue = q }) in
    let (k2, rest, empty, others) = reap_loop-reaped fuel k1 ids (rw same h') (omega arith) in
    (
      k2,
      rw (first, reap_loop) rest,
      empty,
      λ other.
          others other
          ∙ ap (reaped (named other ids)) (one other)
          ∙ reaped-or (same_id other id) (named other ids) (get_task k.tasks other),
    )

-- The reaper ends with an empty queue. The tasks that the queue named and that were dying are dead,
-- and every other lookup gives what it gave.
pub reap_dying_tasks-reaped :
    (k : Kernel) (ids : List TaskId)
    → Listed k.reaper_queue ids
    → (k' : Kernel) × (reap_dying_tasks k ≡ done k')
      × Listed k'.reaper_queue []
      × ((other : TaskId)
          → get_task k'.tasks other ≡ reaped (named other ids) (get_task k.tasks other))
unfolding reap_dying_tasks
reap_dying_tasks-reaped k ids h =
    let n = h.count in reap_loop-reaped (k.reaper_queue.queue_len + 1) k ids h (omega (arith, n))
