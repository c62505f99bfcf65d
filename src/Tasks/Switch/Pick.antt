-- ===== src/Tasks/Switch/Pick.antt =====
-- The choice of the next task, against the ready queue as a list.
use crap_os.Base.{
  ℕ, zero, suc, ◌<◌, ◌≡◌, refl, ap, true, Option, none, some, if◌then◌else◌, arith, Option-cases,
  Bool-cases, inl, inr, List, [], ◌∷◌, length,
}
use crap_os.Ring.{Ring, pop}
use crap_os.Ring.Fifo.{IsRing, pop_empty, pop_first}
use crap_os.Tasks.Ids.{TaskId, idle}
use crap_os.Tasks.Outcome.{done}
use crap_os.Tasks.State.{Task, TaskSlot, Kernel, same_state, ready, running}
use crap_os.Tasks.Switch.{pick_next, with_state}
use crap_os.Tasks.Table.{get_task}

-- The ready queue holds these ids, the oldest one first.
abbrev pub Queued : Ring TaskId → List TaskId → Type 0
Queued q ids = IsRing 8 (λ (a : TaskId). a) q ids

-- The first id of a ready task, with its task, and the ids behind it.
unfoldable pub first_ready : List TaskSlot → List TaskId → Option (TaskId × Task) × List TaskId
first_ready slots [] = (none, [])
first_ready slots (id ∷ ids) =
    let rest = first_ready slots ids in
    elim (get_task slots id) [
      | none ↦ rest
      | some t ↦ if same_state t.state ready then (some (id, t), ids) else rest
    ]

-- What the choice of a task, or of none, makes of the kernel.
abbrev pub chosen : Option (TaskId × Task) → Kernel → TaskId × Kernel
chosen none k = (idle, k)
chosen (some (id, t)) k = (id, with_state running id t k)

-- The loop ends, and it takes the first ready task of the queue. It drops the ids before it, which
-- are stale or name tasks that are not ready. If no task is ready, it takes the idle task.
pub pick_next-first_ready :
    (fuel : ℕ) (k : Kernel) (ids : List TaskId)
    → Queued k.ready_queue ids
    → length ids < fuel
    → (q : Ring TaskId) × Queued q (first_ready k.tasks ids).1
      × (pick_next fuel k
          ≡ done (chosen (first_ready k.tasks ids).0 (record k { ready_queue = q })))
unfolding pick_next first_ready
pick_next-first_ready zero k ids h enough = absurd (omega arith)
pick_next-first_ready (suc fuel) k [] h enough =
    let empty = pop_empty 8 k.ready_queue h in
    let none_left : (pop 8 k.ready_queue).0 ≡ none = ap (λ a. a.0) empty in
    ((pop 8 k.ready_queue).1, rw empty h, rw (none_left, pick_next) refl)
pick_next-first_ready (suc fuel) k (id ∷ ids) h enough =
    let (q', first, h'') = pop_first 8 k.ready_queue id ids h in
    let q = (pop 8 k.ready_queue).1 in
    let popped : (pop 8 k.ready_queue).0 ≡ some id = ap (λ a. a.0) first in
    let h' : Queued q ids = rw first h'' in
    let rest = pick_next-first_ready fuel (record k { ready_queue = q }) ids h' (omega arith) in
    elim (Option-cases (get_task k.tasks id)) [
      | inl e ↦ rw (popped, e, pick_next, first_ready) rest
      | inr (t, e) ↦ elim (Bool-cases (same_state t.state ready)) [
        | inl b ↦ (q, rw (e, b, first_ready) h', rw (popped, e, b, pick_next, first_ready) refl)
        | inr b ↦ rw (popped, e, b, pick_next, first_ready) rest
      ]
    ]

-- What is chosen is in the queue and ready.
pub first_ready-ready :
    (slots : List TaskSlot) (ids : List TaskId) (id : TaskId) (t : Task)
    → (first_ready slots ids).0 ≡ some (id, t)
    → (get_task slots id ≡ some t) × (same_state t.state ready ≡ true)
unfolding first_ready
first_ready-ready slots [] id t h = cc
first_ready-ready slots (i ∷ ids) id t h = elim (Option-cases (get_task slots i)) [
  | inl e ↦ first_ready-ready slots ids id t (rw (e, first_ready) at h)
  | inr (u, e) ↦ elim (Bool-cases (same_state u.state ready)) [
    | inl b ↦
        let same : ◌≡◌ {A = Option (TaskId × Task)} (some (i, u)) (some (id, t)) =
          rw (e, b, first_ready) at h in
        (cc, cc)
    | inr b ↦ first_ready-ready slots ids id t (rw (e, b, first_ready) at h)
  ]
]
