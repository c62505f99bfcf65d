-- ===== src/Tasks/Switch/Laws.antt =====
-- What `schedule` leaves behind when a task is ready.
use crap_os.Base.{
  ◌+◌, ◌<◌, ◌≡◌, refl, ap, ◌∙◌, Bool, true, false, ◌&&◌, not, Option, none, some, if◌then◌else◌,
  arith, ◌==◌, Option-cases, Bool-cases, inl, inr, List, [], ◌∷◌, ◌++◌, length,
}
use crap_os.Ring.{Ring, push}
use crap_os.Ring.Fifo.{push_room}
use crap_os.Tasks.Ids.{TaskId, idle, same_id}
use crap_os.Tasks.Outcome.{Outcome, done}
use crap_os.Tasks.Reaper.{or_same}
use crap_os.Tasks.State.{Task, TaskSlot, Kernel, same_state, ready, running}
use crap_os.Tasks.Switch.{choose, pick_next, requeue_outgoing, with_state, Switch}
use crap_os.Tasks.Switch.Pick.{
  Queued, first_ready, chosen, pick_next-first_ready, first_ready-ready,
}
use crap_os.Tasks.Table.{get_task, put_task}
use crap_os.Tasks.Table.Laws.{get_task-put_task, same_id→eq}
use crap_os.Tasks.Wake.Laws.{enqueue-room}

-- Something was taken out of the queue, so there is room in it.
first_ready-length :
    (slots : List TaskSlot) (ids : List TaskId) (a : TaskId × Task)
    → (first_ready slots ids).0 ≡ some a
    → length (first_ready slots ids).1 < length ids
unfolding first_ready
first_ready-length slots [] a h = cc
first_ready-length slots (i ∷ ids) a h = elim (Option-cases (get_task slots i)) [
  | inl e ↦
      let rest = first_ready-length slots ids a (rw (e, first_ready) at h) in
      rw (e, first_ready) (omega (arith, rest))
  | inr (u, e) ↦ elim (Bool-cases (same_state u.state ready)) [
    | inl b ↦ rw (e, b, first_ready) (omega arith)
    | inr b ↦
        let rest = first_ready-length slots ids a (rw (e, b, first_ready) at h) in
        rw (e, b, first_ready) (omega (arith, rest))
  ]
]

-- Whether the outgoing task goes back to the queue.
abbrev pub goes_back : TaskId → Task → Kernel → Bool
goes_back id t k = same_state t.state running && not (same_id id idle && k.kernel_init_complete)

-- The outgoing task after its time.
abbrev pub put_off : Task → Task
put_off t = if same_state t.state running then record t { state = ready } else t

requeue-kept :
    (id : TaskId) (k : Kernel) (t : Task)
    → get_task k.tasks id ≡ some t
    → same_state t.state running ≡ false
    → requeue_outgoing id k ≡ k
unfolding requeue_outgoing
requeue-kept id k t e b = rw (e, b, requeue_outgoing) refl

requeue-idle :
    (id : TaskId) (k : Kernel) (t : Task)
    → get_task k.tasks id ≡ some t
    → same_state t.state running ≡ true
    → (same_id id idle && k.kernel_init_complete) ≡ true
    → requeue_outgoing id k ≡ with_state ready id t k
unfolding requeue_outgoing
requeue-idle id k t e b i = rw (e, b, i, requeue_outgoing) refl

requeue-room :
    (id : TaskId) (k : Kernel) (t : Task) (q : Ring TaskId)
    → get_task k.tasks id ≡ some t
    → same_state t.state running ≡ true
    → (same_id id idle && k.kernel_init_complete) ≡ false
    → push 8 id k.ready_queue ≡ some q
    → requeue_outgoing id k ≡ record (with_state ready id t k) { ready_queue = q }
unfolding requeue_outgoing
requeue-room id k t q e b i p =
    rw (e, b, i, requeue_outgoing)
      (ap (or_same (with_state ready id t k)) (enqueue-room id (with_state ready id t k) q p))

-- The outgoing task with room in the queue: what the queue and the table are then, and that no
-- other part of the kernel changed.
record Requeued (id : TaskId) (t : Task) (k : Kernel) (ids : List TaskId) : Type 0 where
  q : Ring TaskId
  slots : List TaskSlot
  result : requeue_outgoing id k ≡ record k { ready_queue = q; tasks = slots }
  queued : Queued q (if goes_back id t k then ids ++ id ∷ [] else ids)
  table :
      (other : TaskId)
      → get_task slots other
        ≡ (if same_id other id then some (put_off t) else get_task k.tasks other)

requeue-Requeued :
    (id : TaskId) (t : Task) (k : Kernel) (ids : List TaskId)
    → get_task k.tasks id ≡ some t
    → Queued k.ready_queue ids
    → length ids < 256
    → Requeued id t k ids
requeue-Requeued id t k ids e h room = elim (Bool-cases (same_state t.state running)) [
  | inr b ↦ record {
    q = k.ready_queue;
    slots = k.tasks;
    result = requeue-kept id k t e b;
    queued = rw b h;
    table = λ other. rw b (elim (Bool-cases (same_id other id)) [
      | inl s ↦ rw s (ap (get_task k.tasks) (same_id→eq other id s) ∙ e)
      | inr s ↦ rw s refl
    ]);
  }
  | inl b ↦
      let written =
        λ (other : TaskId). get_task-put_task k.tasks id other t (record t { state = ready }) e in
      elim (Bool-cases (same_id id idle && k.kernel_init_complete)) [
        | inl i ↦ record {
          q = k.ready_queue;
          slots = put_task k.tasks id (record t { state = ready });
          result = requeue-idle id k t e b i;
          queued = rw (b, i) h;
          table = λ other. rw b (written other);
        }
        | inr i ↦
            let (q', pushed, h') = push_room 8 (λ (a : TaskId). a) id k.ready_queue ids h room in
            record {
              q = q';
              slots = put_task k.tasks id (record t { state = ready });
              result = requeue-room id k t q' e b i pushed;
              queued = rw (b, i) h';
              table = λ other. rw b (written other);
            }
      ]
]

-- The CPU with its next task.
abbrev pub dispatched : TaskId → Task → Kernel → Kernel
dispatched id next k = record k {
  current = id;
  kernel_stack = if next.is_user_task then next.kernel_stack_top else k.kernel_stack;
  cpu_ticks_remaining = next.ticks_remaining;
}

abbrev pub switch_to_task : TaskId → Task → Option Switch
switch_to_task outgoing next =
    if next.saved_rsp == 0
    then none
    else some (record { outgoing = outgoing; new_rsp = next.saved_rsp; new_cr3 = next.cr3 })

choose-dispatched :
    (k k1 k2 : Kernel) (id : TaskId) (next out : Task)
    → pick_next (k.ready_queue.queue_len + 1) k ≡ done (id, k1)
    → requeue_outgoing k.current k1 ≡ k2
    → get_task k2.tasks id ≡ some next
    → get_task k2.tasks k.current ≡ some out
    → choose k ≡ done (switch_to_task k.current next, dispatched id next k2)
unfolding choose
choose-dispatched k k1 k2 id next out p r n o =
    rw (p, r, n, o, choose)
      (last (next.saved_rsp == 0)
        (record { outgoing = k.current; new_rsp = next.saved_rsp; new_cr3 = next.cr3 })
        (dispatched id next k2))
  where
    last :
        (b : Bool) {A B : Type 0} (x : A) (y : B)
        → ◌≡◌ {A = Outcome (Option A × B)}
            (if not b then done (some x, y) else done (none, y))
            (done (if b then none else some x, y))
    last true x y = refl
    last false x y = refl

-- A task is queued that is ready, and the current task is not. Then the choice ends, and the first
-- ready task of the queue is the current one: it runs, and the CPU gets its ticks. The outgoing task
-- goes to the end of what is left of the queue if it was running, unless it is the idle task of an
-- initialized kernel, and there is always room for it. The switch is made unless the stack pointer
-- of the next task is null.
pub choose-round_robin :
    (k : Kernel) (ids : List TaskId) (id : TaskId) (t out : Task)
    → Queued k.ready_queue ids
    → (first_ready k.tasks ids).0 ≡ some (id, t)
    → get_task k.tasks k.current ≡ some out
    → same_state out.state ready ≡ false
    → (k' : Kernel) × (choose k ≡ done (switch_to_task k.current t, k'))
      × (k'.current ≡ id)
      × (k'.cpu_ticks_remaining ≡ t.ticks_remaining)
      × (get_task k'.tasks id ≡ some (record t { state = running }))
      × (get_task k'.tasks k.current ≡ some (put_off out))
      × Queued k'.ready_queue (
          if goes_back k.current out k
          then (first_ready k.tasks ids).1 ++ k.current ∷ []
          else (first_ready k.tasks ids).1)
choose-round_robin k ids id t out h found e busy =
    let (at, b) = first_ready-ready k.tasks ids id t found in
    let n = h.count in
    let fit = h.fits in
    let (q, left, picked) =
      pick_next-first_ready (k.ready_queue.queue_len + 1) k ids h (omega (arith, n)) in
    let k1 = with_state running id t (record k { ready_queue = q }) in
    let apart : same_id k.current id ≡ false = elim (Bool-cases (same_id k.current id)) [
      | inl s ↦
          let same : out ≡ t =
            (let s' = same_id→eq k.current id s in let s'' = ap (get_task k.tasks) s' in cc) in
          let b' : same_state out.state ready ≡ true =
            ap (λ (u : Task). same_state u.state ready) same ∙ b in
          cc
      | inr s ↦ s
    ] in
    let written =
      λ (other : TaskId). get_task-put_task k.tasks id other t (record t { state = running }) at in
    let e1 : get_task k1.tasks k.current ≡ some out = written k.current ∙ rw apart e in
    let shorter = first_ready-length k.tasks ids (id, t) found in
    let r =
      requeue-Requeued k.current out k1 (first_ready k.tasks ids).1 e1 left
        (omega (arith, n, fit)) in
    let apart' : same_id id k.current ≡ false = ground (arith, apart) in
    let self : same_id k.current k.current ≡ true = ground arith in
    let self' : same_id id id ≡ true = ground arith in
    let k2 = record k1 { ready_queue = r.q; tasks = r.slots } in
    let next : get_task k2.tasks id ≡ some (record t { state = running }) =
      r.table id ∙ rw apart' (written id ∙ rw self' refl) in
    let outgoing : get_task k2.tasks k.current ≡ some (put_off out) =
      r.table k.current ∙ rw self refl in
    let picked' : pick_next (k.ready_queue.queue_len + 1) k ≡ done (id, k1) =
      picked ∙ ap (λ o. done (chosen o (record k { ready_queue = q }))) found in
    (
      dispatched id (record t { state = running }) k2,
      choose-dispatched k k1 k2 id (record t { state = running }) (put_off out) picked' r.result
          next outgoing,
      refl,
      refl,
      next,
      outgoing,
      r.queued,
    )
