-- ===== src/Tasks/Wake/Tick.antt =====
-- One tick of the sleep queue with the calls of `wake` in it.
use crap_os.Base.{
  ℕ, zero, suc, ◌+◌, ◌<◌, ◌≡◌, refl, ap, ◌∙◌, Result, arith, ◌==◌, Bool-cases, inl, inr, List, [],
  ◌∷◌, length,
}
use crap_os.Tasks.Ids.{TaskId}
use crap_os.Tasks.Outcome.{Outcome, done, panic, no_fuel, ◌>>=◌}
use crap_os.Tasks.Sleep.{SleepEntry, SleepQueue, count_down, expire}
use crap_os.Tasks.Sleep.Delta.{wake_times}
use crap_os.Tasks.Sleep.Refine.{Sleeps}
use crap_os.Tasks.Sleep.Tick.{
  count_down_list, count_down-Sleeps, pop_expired-nil, pop_expired-later, pop_expired-due,
  split_due, expire-split_due, HeadWaits, split_due-HeadWaits, due, waiting, split_due-wake_times,
}
use crap_os.Tasks.State.{Kernel, SchedulerError}
use crap_os.Tasks.Wake.{wake, wake_expired, tick_sleep_queue}
use crap_os.Tasks.Wake.Laws.{with_sleep, wake-with_sleep}

-- The calls of `wake` on a list of tasks, one after the other, with their number.
abbrev pub wake_all : List TaskId → Kernel → Outcome (ℕ × Kernel)
wake_all [] k = done (0, k)
wake_all (id ∷ ids) k = do
  (_, k') ← wake id k
  (woken, k'') ← wake_all ids k'
  done (woken + 1, k'')

abbrev one_more : ℕ × Kernel → Outcome (ℕ × Kernel)
one_more a = done (a.0 + 1, a.1)

abbrev keep :
    SleepQueue
    → Result SchedulerError (Unit {0}) × Kernel
    → Outcome (Result SchedulerError (Unit {0}) × Kernel)
keep q a = done (a.0, with_sleep q a.1)

-- The loop wakes what `expire` takes out of the queue, and leaves what it leaves.
pub wake_expired-expire :
    (fuel : ℕ) (k : Kernel) (xs : List SleepEntry)
    → Sleeps k.sleep_queue xs
    → length xs < fuel
    → wake_expired fuel k
      ≡ wake_all (expire fuel k.sleep_queue).0 (with_sleep (expire fuel k.sleep_queue).1 k)
unfolding wake_expired expire
wake_expired-expire zero k xs h enough = absurd (omega arith)
wake_expired-expire (suc fuel) k [] h enough =
    rw (pop_expired-nil k.sleep_queue h, wake_expired, expire) refl
wake_expired-expire (suc fuel) k (x ∷ xs) h enough = elim (Bool-cases (x.delta_ticks == 0)) [
  | inr e ↦ rw (pop_expired-later k.sleep_queue x xs h (ground arith), wake_expired, expire) refl
  | inl e ↦
      let (q, popped, h') = pop_expired-due k.sleep_queue x xs h (ground arith) in
      rw (popped, wake_expired, expire)
        (rw (wake-with_sleep q x.task_id k, wake-with_sleep (expire fuel q).1 x.task_id k)
          (after q (λ k'. wake_expired-expire fuel (with_sleep q k') xs h' (omega arith))
            (wake x.task_id k)))
]
  where
    after :
        (q : SleepQueue)
        → ((k' : Kernel)
            → wake_expired fuel (with_sleep q k')
              ≡ wake_all (expire fuel q).0 (with_sleep (expire fuel q).1 k'))
        → (o : Outcome (Result SchedulerError (Unit {0}) × Kernel))
        → ((o >>= keep q) >>= λ a. wake_expired fuel a.1 >>= one_more)
          ≡ ((o >>= keep (expire fuel q).1) >>= λ a. wake_all (expire fuel q).0 a.1 >>= one_more)
    after q loop panic = refl
    after q loop no_fuel = refl
    after q loop (done (r, k')) = ap (λ (o : Outcome (ℕ × Kernel)). o >>= one_more) (loop k')

-- A tick of the sleep queue. Let `xs` be its entries, of which the first one waits, and their wake
-- times the ticks that each one has left. Then the tick wakes the tasks with one tick left, in the
-- order of the queue, and the queue that it leaves holds the others with one tick less. The loop
-- does not run out of fuel.
pub tick_sleep_queue-due :
    (k : Kernel) (xs : List SleepEntry)
    → Sleeps k.sleep_queue xs
    → HeadWaits xs
    → (q : SleepQueue) × (ys : List SleepEntry) × (tick_sleep_queue k
        ≡ wake_all (due (wake_times 0 xs)) (with_sleep q k))
      × Sleeps q ys
      × HeadWaits ys
      × (wake_times 0 ys ≡ waiting (wake_times 0 xs))
unfolding tick_sleep_queue
tick_sleep_queue-due k xs h head =
    let down = count_down-Sleeps k.sleep_queue xs h in
    let q = count_down k.sleep_queue in
    let n = down.count in
    let fuel = q.queue_len + 1 in
    let loop = wake_expired-expire fuel (with_sleep q k) (count_down_list xs) down (omega arith) in
    let (ids, left) = expire-split_due fuel q (count_down_list xs) down (omega arith) in
    let (same, rest) = split_due-wake_times xs head in
    (
      (expire fuel q).1,
      (split_due (count_down_list xs)).1,
      loop ∙ ap (λ l. wake_all l (with_sleep (expire fuel q).1 k)) (ids ∙ same),
      left,
      split_due-HeadWaits (count_down_list xs),
      rest,
    )
