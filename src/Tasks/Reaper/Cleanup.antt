-- ===== src/Tasks/Reaper/Cleanup.antt =====
-- `remove_task` and `tombstone_cleanup`: what is buried is gone, and nothing else is.
use crap_os.Base.{
  ℕ, zero, suc, ◌+◌, ◌<◌, ◌≡◌, ◌≢◌, refl, ap, ◌∙◌, true, Option, none, some, arith, update,
  Option-cases, inl, inr, List, [], ◌∷◌, length, All,
}
use crap_os.Ring.{Ring, pop_take}
use crap_os.Ring.Fifo.{IsRing, take_empty, take_first}
use crap_os.Tasks.Ids.{TaskId}
use crap_os.Tasks.Outcome.{done}
use crap_os.Tasks.Reaper.{remove_task, cleanup_loop, tombstone_cleanup}
use crap_os.Tasks.State.{Task, ThreadState, Kernel}
use crap_os.Tasks.Table.{get_task, free_slot, is_some}
use crap_os.Tasks.Table.Laws.{get_task-free_slot}

-- Every task of the table has a live thread.
unfoldable pub AllAlive : Kernel → Type 0
AllAlive k =
    (id : TaskId) (t : Task) → get_task k.tasks id ≡ some t → is_some (k.threads t.thread) ≡ true

-- The reaper queue or the tombstone queue holds these ids.
abbrev pub Listed : Ring (Option TaskId) → List TaskId → Type 0
Listed q ids = IsRing 6 some q ids

-- The kernel after the removal of some ids.
pub record Removed (k k' : Kernel) (ids : List TaskId) : Type 0 where
  pub alive : AllAlive k'
  pub gone : All (λ id. get_task k'.tasks id ≡ none) ids
  pub stays_gone : (id : TaskId) → get_task k.tasks id ≡ none → get_task k'.tasks id ≡ none
  pub others :
      (id : TaskId)
      → All (λ i. i.slot_index ≢ id.slot_index) ids
      → get_task k'.tasks id ≡ get_task k.tasks id

remove_task-Removed :
    (id : TaskId) (k : Kernel)
    → AllAlive k
    → (k' : Kernel) × (remove_task id k ≡ done k')
      × (k'.tombstone_queue ≡ k.tombstone_queue)
      × Removed k k' (id ∷ [])
unfolding remove_task AllAlive
remove_task-Removed id k alive = elim (Option-cases (get_task k.tasks id)) [
  | inl e ↦ (
    k,
    rw (e, remove_task) refl,
    refl,
    record { alive = alive; gone = (e, tt); stays_gone = λ i h. h; others = λ i h. refl },
  )
  | inr (t, e) ↦ elim (Option-cases (k.threads t.thread)) [
    | inl l ↦ (let a = alive id t e in let a' = ap is_some l in absurd (ground arith))
    | inr (th, l) ↦
        let after = λ (i : TaskId). get_task-free_slot k.tasks id i t e in
        (
          record k {
            threads =
                update k.threads t.thread
                  (some (record th { task_id = none; state = ThreadState.dead }));
            tasks = free_slot k.tasks id;
          },
          rw (e, l, remove_task) refl,
          refl,
          record {
            alive = λ i u h. ground (arith, after i, alive i u);
            gone = (after id ∙ ground arith, tt);
            stays_gone = λ i h. after i ∙ ground (arith, h);
            others = λ i h. (let ne = h.0 in after i ∙ ground (arith, ne));
          },
        )
  ]
]

Removed-trans :
    (k k1 k2 : Kernel) (id : TaskId) (ids : List TaskId)
    → Removed k k1 (id ∷ [])
    → Removed k1 k2 ids
    → Removed k k2 (id ∷ ids)
Removed-trans k k1 k2 id ids r s = record {
  alive = s.alive;
  gone = (s.stays_gone id r.gone.0, s.gone);
  stays_gone = λ i h. s.stays_gone i (r.stays_gone i h);
  others = λ i h. s.others i h.1 ∙ r.others i (h.0, tt);
}

cleanup_loop-Removed :
    (fuel : ℕ) (k : Kernel) (ids : List TaskId)
    → Listed k.tombstone_queue ids
    → length ids < fuel
    → AllAlive k
    → (k' : Kernel) × (cleanup_loop fuel k ≡ done k')
      × Listed k'.tombstone_queue []
      × Removed k k' ids
unfolding cleanup_loop AllAlive
cleanup_loop-Removed zero k ids h enough alive = absurd (omega arith)
cleanup_loop-Removed (suc fuel) k [] h enough alive =
    let empty = take_empty 6 k.tombstone_queue h in
    let first : (pop_take 6 k.tombstone_queue).0 ≡ none = ap (λ a. a.0) empty in
    (
      record k { tombstone_queue = (pop_take 6 k.tombstone_queue).1 },
      rw (first, cleanup_loop) refl,
      rw empty h,
      record { alive = alive; gone = tt; stays_gone = λ i e. e; others = λ i e. refl },
    )
cleanup_loop-Removed (suc fuel) k (id ∷ ids) h enough alive =
    let (q', taken, h'') = take_first 6 k.tombstone_queue id ids h in
    let first : (pop_take 6 k.tombstone_queue).0 ≡ some id = ap (λ a. a.0) taken in
    let q = (pop_take 6 k.tombstone_queue).1 in
    let h' : Listed q ids = rw taken h'' in
    let (k1, removed, same, r) = remove_task-Removed id (record k { tombstone_queue = q }) alive in
    let (k2, rest, empty, s) =
      cleanup_loop-Removed fuel k1 ids (rw same h') (omega arith) r.alive in
    (
      k2,
      rw (first, removed, cleanup_loop) rest,
      empty,
      Removed-trans k k1 k2 id ids
          (record { alive = r.alive; gone = r.gone; stays_gone = r.stays_gone; others = r.others })
          s,
    )

-- The cleanup ends with an empty queue, and without a panic if every task has a live thread, which
-- then holds again. No id of the queue finds a task any more, and an id whose slot none of them
-- names finds what it found before.
pub tombstone_cleanup-Removed :
    (k : Kernel) (ids : List TaskId)
    → Listed k.tombstone_queue ids
    → AllAlive k
    → (k' : Kernel) × (tombstone_cleanup k ≡ done k')
      × Listed k'.tombstone_queue []
      × Removed k k' ids
unfolding tombstone_cleanup
tombstone_cleanup-Removed k ids h alive =
    let n = h.count in
    cleanup_loop-Removed (k.tombstone_queue.queue_len + 1) k ids h (omega (arith, n)) alive
