-- ===== src/Tasks/Wake/Laws.antt =====
-- `wake` on each of its branches.
use crap_os.Base.{
  ◌≡◌, refl, ap, ◌∙◌, true, false, none, some, Result, ok, err, if◌then◌else◌, arith, update, ◌==◌,
  Option-cases, Bool-cases, inl, inr, List, ◌++◌, [], ◌∷◌, length,
}
use mathlib.Core.Path.{subst}
use crap_os.Ring.{Ring, push}
use crap_os.Ring.Fifo.{IsRing, push_room, push_full}
use crap_os.Tasks.Ids.{TaskId}
use crap_os.Tasks.Outcome.{Outcome, done, panic, ◌>>=◌}
use crap_os.Tasks.Sleep.{SleepQueue}
use crap_os.Tasks.State.{
  SchedulerError, Task, Thread, Kernel, queue_full, unknown_task, same_state, ready, blocked,
  active,
}
use crap_os.Tasks.Table.{is_some, get_task, put_task, is_some}
use crap_os.Tasks.Table.Laws.{get_task-put_task}
use crap_os.Tasks.Wake.{wake, enqueue, answer}

abbrev pub with_sleep : SleepQueue → Kernel → Kernel
with_sleep q k = record k { sleep_queue = q }

abbrev roused : TaskId → Task → Thread → Kernel → Kernel
roused id t th k = record k {
  tasks = put_task k.tasks id (record t { state = ready });
  threads = update k.threads t.thread (some (record th { state = active }));
}

wake-roused :
    (id : TaskId) (k : Kernel) (t : Task) (th : Thread)
    → get_task k.tasks id ≡ some t
    → same_state t.state blocked ≡ true
    → k.threads t.thread ≡ some th
    → wake id k ≡ done (answer (roused id t th k) (enqueue id (roused id t th k)))
unfolding wake
wake-roused id k t th e b l = rw (e, b, l, wake) refl

wake-dangling :
    (id : TaskId) (k : Kernel) (t : Task)
    → get_task k.tasks id ≡ some t
    → same_state t.state blocked ≡ true
    → k.threads t.thread ≡ none
    → wake id k ≡ panic
unfolding wake
wake-dangling id k t e b l = rw (e, b, l, wake) refl

wake-unknown :
    (id : TaskId) (k : Kernel) → get_task k.tasks id ≡ none → wake id k ≡ done (err unknown_task, k)
unfolding wake
wake-unknown id k e = rw (e, wake) refl

wake_other :
    (id : TaskId) (k : Kernel) (t : Task)
    → get_task k.tasks id ≡ some t
    → same_state t.state blocked ≡ false
    → wake id k ≡ done (ok tt, k)
unfolding wake
wake_other id k t e b = rw (e, b, wake) refl

pub enqueue-full :
    (id : TaskId) (k : Kernel) → push 8 id k.ready_queue ≡ none → enqueue id k ≡ err queue_full
enqueue-full id k p = rw (p, enqueue) refl

pub enqueue-room :
    (id : TaskId) (k : Kernel) (q : Ring TaskId)
    → push 8 id k.ready_queue ≡ some q
    → enqueue id k ≡ ok (record k { ready_queue = q })
enqueue-room id k q p = rw (p, enqueue) refl

enqueue-with_sleep :
    (q : SleepQueue) (id : TaskId) (k : Kernel)
    → answer (with_sleep q k) (enqueue id (with_sleep q k))
      ≡ ((answer k (enqueue id k)).0, with_sleep q (answer k (enqueue id k)).1)
enqueue-with_sleep q id k = elim (Option-cases (push 8 id k.ready_queue)) [
  | inl p ↦ rw (enqueue-full id k p, enqueue-full id (with_sleep q k) p) refl
  | inr (r, p) ↦ rw (enqueue-room id k r p, enqueue-room id (with_sleep q k) r p) refl
]

-- `wake` neither reads nor writes the sleep queue, which its caller holds.
pub wake-with_sleep :
    (q : SleepQueue) (id : TaskId) (k : Kernel)
    → wake id (with_sleep q k) ≡ (wake id k >>= λ (r, k'). done (r, with_sleep q k'))
wake-with_sleep q id k = elim (Option-cases (get_task k.tasks id)) [
  | inl e ↦ rw (wake-unknown id k e, wake-unknown id (with_sleep q k) e) refl
  | inr (t, e) ↦ elim (Bool-cases (same_state t.state blocked)) [
    | inl b ↦ elim (Option-cases (k.threads t.thread)) [
      | inl l ↦ rw (wake-dangling id k t e b l, wake-dangling id (with_sleep q k) t e b l) refl
      | inr (th, l) ↦
          rw (wake-roused id k t th e b l, wake-roused id (with_sleep q k) t th e b l)
            (ap done (enqueue-with_sleep q id (roused id t th k)))
    ]
    | inr b ↦ rw (wake_other id k t e b, wake_other id (with_sleep q k) t e b) refl
  ]
]

put-ready :
    (id : TaskId) (k : Kernel) (t : Task)
    → get_task k.tasks id ≡ some t
    → get_task (put_task k.tasks id (record t { state = ready })) id
      ≡ some (record t { state = ready })
put-ready id k t e = get_task-put_task k.tasks id id t (record t { state = ready }) e ∙ ground arith

-- A task that is blocked, whose thread lives: it and its thread become ready, whatever else
-- happens. It is queued behind the others if the ready queue has room. Else the call fails, and
-- the task is ready without a place in the queue.
pub wake-blocked :
    (id : TaskId) (k : Kernel) (t : Task) (th : Thread) (ids : List TaskId)
    → get_task k.tasks id ≡ some t
    → t.state ≡ blocked
    → k.threads t.thread ≡ some th
    → IsRing 8 (λ (a : TaskId). a) k.ready_queue ids
    → (r : Result SchedulerError (Unit {0})) × (k' : Kernel) × (wake id k ≡ done (r, k'))
      × (get_task k'.tasks id ≡ some (record t { state = ready }))
      × (k'.threads t.thread ≡ some (record th { state = active }))
      × (if length ids == 256
          then (r ≡ err queue_full) × IsRing 8 (λ (a : TaskId). a) k'.ready_queue ids
          else (r ≡ ok tt) × IsRing 8 (λ (a : TaskId). a) k'.ready_queue (ids ++ id ∷ []))
wake-blocked id k t th ids e b l h =
    let code : same_state t.state blocked ≡ true = ap (λ s. same_state s blocked) b in
    let k1 = roused id t th k in
    let woken = wake-roused id k t th e code l in
    let alive : k1.threads t.thread ≡ some (record th { state = active }) = ground arith in
    elim (Bool-cases (length ids == 256)) [
      | inl full ↦
          let p =
            enqueue-full id k1
              (push_full 8 (λ (a : TaskId). a) id k.ready_queue ids h (ground arith)) in
          (err queue_full, k1, woken ∙ rw p refl, put-ready id k t e, alive, rw full (refl, h))
      | inr room ↦
          let fit = h.fits in
          let n = h.count in
          let (q', pushed, h') =
            push_room 8 (λ (a : TaskId). a) id k.ready_queue ids h (ground arith) in
          let p = enqueue-room id k1 q' pushed in
          (
            ok tt,
            record k1 { ready_queue = q' },
            woken ∙ rw p refl,
            put-ready id k t e,
            alive,
            rw room (refl, h'),
          )
    ]

same_end :
    {o : Outcome (Result SchedulerError (Unit {0}) × Kernel)}
    {r r' : Result SchedulerError (Unit {0})} {k k' : Kernel}
    → o ≡ done (r, k)
    → o ≡ done (r', k')
    → k ≡ k'
same_end h h' = cc

enqueue-tasks : (id : TaskId) (k : Kernel) → (answer k (enqueue id k)).1.tasks ≡ k.tasks
enqueue-tasks id k = elim (Option-cases (push 8 id k.ready_queue)) [
  | inl p ↦ rw (enqueue-full id k p) refl
  | inr (r, p) ↦ rw (enqueue-room id k r p) refl
]

-- A call after one that returned changes nothing. It fails exactly if the task is unknown.
pub wake-again :
    (id : TaskId) (k k' : Kernel) (r : Result SchedulerError (Unit {0}))
    → wake id k ≡ done (r, k')
    → wake id k' ≡ done (if is_some (get_task k.tasks id) then ok tt else err unknown_task, k')
wake-again id k k' r h = elim (Option-cases (get_task k.tasks id)) [
  | inl e ↦
      let first = wake-unknown id k e in
      rw e (subst (λ j. wake id j ≡ done (err unknown_task, j)) (same_end first h) first)
  | inr (t, e) ↦ rw e (elim (Bool-cases (same_state t.state blocked)) [
    | inr b ↦
        let first = wake_other id k t e b in
        subst (λ j. wake id j ≡ done (ok tt, j)) (same_end first h) first
    | inl b ↦ elim (Option-cases (k.threads t.thread)) [
      | inl l ↦ (let dangling = wake-dangling id k t e b l in cc)
      | inr (th, l) ↦
          let first = wake-roused id k t th e b l in
          let same = enqueue-tasks id (roused id t th k) in
          subst (λ j. wake id j ≡ done (ok tt, j)) (same_end first h)
            (wake_other id (answer (roused id t th k) (enqueue id (roused id t th k))).1
              (record t { state = ready }) (ap (λ s. get_task s id) same ∙ put-ready id k t e) refl)
    ]
  ])
]
