-- ===== src/Tasks/Sleep/Tick.antt =====
-- One tick of the sleep queue: which tasks wake, and what the others have left.
use crap_os.Base.{
  update, ℕ, zero, suc, ◌+◌, ◌-◌, ◌<◌, ◌≤◌, ◌≡◌, ◌≢◌, refl, ap, ◌∙◌, Option, none, some, List, [],
  ◌∷◌, leb, ◌==◌, if◌then◌else◌, arith, get_elem?, length, get_elem?-none, Bool-cases, inl, inr,
}
use crap_os.Tasks.Ids.{TaskId}
use crap_os.Tasks.Sleep.{SleepEntry, SleepQueue, count_down, shift_left, pop_expired, expire}
use crap_os.Tasks.Sleep.Array.{shift_left_lem}
use crap_os.Tasks.Sleep.Delta.{wake_times}
use crap_os.Tasks.Sleep.Refine.{Sleeps}

abbrev pub count_down_list : List SleepEntry → List SleepEntry
count_down_list [] = []
count_down_list (x ∷ xs) = record x { delta_ticks = x.delta_ticks - 1 } ∷ xs

abbrev later : Option SleepEntry → Option SleepEntry
later none = none
later (some x) = some (record x { delta_ticks = x.delta_ticks - 1 })

count_down_entries :
    (q : SleepQueue) (o : Option SleepEntry)
    → q.entries 0 ≡ o
    → (j : ℕ)
    → ((count_down q).entries j ≡ (if j == 0 then later o else q.entries j))
      × ((count_down q).queue_len ≡ q.queue_len)
unfolding count_down
count_down_entries q none e j = ground arith
count_down_entries q (some x) e j = ground arith

pub count_down-Sleeps :
    (q : SleepQueue) (xs : List SleepEntry)
    → Sleeps q xs
    → Sleeps (count_down q) (count_down_list xs)
count_down-Sleeps q [] h = record {
  count = (count_down_entries q none (h.slot 0) 0).1 ∙ h.count;
  fits = h.fits;
  slot = λ j. ground (arith, count_down_entries q none (h.slot 0) j, h.slot j);
}
count_down-Sleeps q (x ∷ xs) h = record {
  count = (count_down_entries q (some x) (h.slot 0) 0).1 ∙ h.count;
  fits = h.fits;
  slot = λ j. slot_at j;
}
  where
    slot_at : (j : ℕ) → (count_down q).entries j ≡ get_elem? (count_down_list (x ∷ xs)) j
    slot_at zero = (count_down_entries q (some x) (h.slot 0) 0).0
    slot_at (suc j) =
        ground (arith, count_down_entries q (some x) (h.slot 0) (suc j), h.slot (suc j))

pub pop_expired-nil : (q : SleepQueue) → Sleeps q [] → pop_expired q ≡ none
unfolding pop_expired
pop_expired-nil q h = ground (arith, h.count)

pub pop_expired-later :
    (q : SleepQueue) (x : SleepEntry) (xs : List SleepEntry)
    → Sleeps q (x ∷ xs)
    → x.delta_ticks ≢ 0
    → pop_expired q ≡ none
unfolding pop_expired
pop_expired-later q x xs h late = ground (arith, h.count, h.slot 0)

pub pop_expired-due :
    (q : SleepQueue) (x : SleepEntry) (xs : List SleepEntry)
    → Sleeps q (x ∷ xs)
    → x.delta_ticks ≡ 0
    → (q' : SleepQueue) × (pop_expired q ≡ some (x.task_id, q')) × Sleeps q' xs
pop_expired-due q x xs h due = (
  record { entries = rest; queue_len = q.queue_len - 1 },
  unfold pop_expired in ground (arith, h.count, h.slot 0),
  record {
    count = omega (arith, h.count);
    fits = omega (arith, h.fits);
    slot = moved xs h.slot h.count;
  },
)
  where
    rest : ℕ → Option SleepEntry
    rest = shift_left (q.queue_len - 1) 0 (update q.entries 0 none)

    moved :
        (ys : List SleepEntry)
        → ((i : ℕ) → q.entries i ≡ get_elem? (x ∷ ys) i)
        → q.queue_len ≡ suc (length ys)
        → (j : ℕ) → rest j ≡ get_elem? ys j
    moved [] slot count zero =
        let n : q.queue_len - 1 ≡ 0 = omega (arith, count) in unfold shift_left in rw n refl
    moved [] slot count (suc j) =
        let n : q.queue_len - 1 ≡ 0 = omega (arith, count) in
        unfold shift_left in rw n (ground (arith, slot (suc j)))
    moved (y ∷ ys) slot count j =
        let n : q.queue_len - 1 ≡ suc (length ys) = omega (arith, count) in
        let next : q.entries (j + 1) ≡ get_elem? (y ∷ ys) j =
          ap q.entries (omega arith) ∙ slot (suc j) in
        let at = shift_left_lem (length ys) 0 (update q.entries 0 none) j in
        rw n (
          ground
            (arith, at, next, slot j, get_elem?-none (y ∷ ys) j, get_elem?-none (x ∷ y ∷ ys) j))

-- The entries whose ticks are over, at the head, and what is left behind them.
unfoldable pub split_due : List SleepEntry → List TaskId × List SleepEntry
split_due [] = ([], [])
split_due (x ∷ xs) =
    let rest = split_due xs in
    if x.delta_ticks == 0 then (x.task_id ∷ rest.0, rest.1) else ([], x ∷ xs)

-- The loop pops exactly the entries whose ticks are over.
pub expire-split_due :
    (fuel : ℕ) (q : SleepQueue) (xs : List SleepEntry)
    → Sleeps q xs
    → length xs ≤ fuel
    → ((expire fuel q).0 ≡ (split_due xs).0) × Sleeps (expire fuel q).1 (split_due xs).1
unfolding expire split_due
expire-split_due zero q [] h fits = (refl, h)
expire-split_due zero q (x ∷ xs) h fits = absurd (omega arith)
expire-split_due (suc fuel) q [] h fits = rw (pop_expired-nil q h, expire) (refl, h)
expire-split_due (suc fuel) q (x ∷ xs) h fits = elim (Bool-cases (x.delta_ticks == 0)) [
  | inl e ↦
      let (q', popped, h') = pop_expired-due q x xs h (ground arith) in
      let (ids, left) = expire-split_due fuel q' xs h' (omega arith) in
      rw (popped, e, expire) (ap (λ (t : List TaskId). x.task_id ∷ t) ids, left)
  | inr e ↦ rw (pop_expired-later q x xs h (ground arith), e, expire) (refl, h)
]

-- No entry but one that is due has no ticks left: the head of a queue that waits.
abbrev pub HeadWaits : List SleepEntry → Type 0
HeadWaits [] = Unit {0}
HeadWaits (x ∷ xs) = 0 < x.delta_ticks

pub split_due-HeadWaits : (xs : List SleepEntry) → HeadWaits (split_due xs).1
unfolding split_due
split_due-HeadWaits [] = tt
split_due-HeadWaits (x ∷ xs) = elim (Bool-cases (x.delta_ticks == 0)) [
  | inl e ↦ rw e (split_due-HeadWaits xs)
  | inr e ↦ rw e (ground arith)
]

-- The tasks that are due after one tick, and the others with one tick less to wait.
unfoldable pub due : List (ℕ × TaskId) → List TaskId
due [] = []
due ((t, id) ∷ ts) = if leb t 1 then id ∷ due ts else due ts

unfoldable pub waiting : List (ℕ × TaskId) → List (ℕ × TaskId)
waiting [] = []
waiting ((t, id) ∷ ts) = if leb t 1 then waiting ts else (t - 1, id) ∷ waiting ts

-- Behind an entry that waits longer than a tick, every entry does.
all_wait :
    (base : ℕ) (xs : List SleepEntry)
    → 1 < base
    → (due (wake_times base xs) ≡ []) × (waiting (wake_times base xs) ≡ wake_times (base - 1) xs)
unfolding due waiting wake_times
all_wait base [] h = (refl, refl)
all_wait base (x ∷ xs) h =
    let sum : base - 1 + x.delta_ticks ≡ base + x.delta_ticks - 1 = omega arith in
    ground (arith, sum, all_wait (base + x.delta_ticks) xs)

all_due :
    (xs : List SleepEntry)
    → (due (wake_times 1 xs) ≡ (split_due xs).0)
      × (waiting (wake_times 1 xs) ≡ wake_times 0 (split_due xs).1)
unfolding due waiting wake_times split_due
all_due [] = (refl, refl)
all_due (x ∷ xs) = elim (Bool-cases (x.delta_ticks == 0)) [
  | inl e ↦ let z : x.delta_ticks ≡ 0 = ground arith in rw (e, z) (ground (arith, all_due xs))
  | inr e ↦
      let wait = all_wait (1 + x.delta_ticks) xs (ground arith) in
      let sum : 1 + x.delta_ticks - 1 ≡ 0 + x.delta_ticks = omega arith in ground (arith, wait, sum)
]

-- After `count_down` the due entries are those of the wake times.
pub split_due-wake_times :
    (xs : List SleepEntry)
    → HeadWaits xs
    → ((split_due (count_down_list xs)).0 ≡ due (wake_times 0 xs))
      × (wake_times 0 (split_due (count_down_list xs)).1 ≡ waiting (wake_times 0 xs))
unfolding due waiting wake_times split_due
split_due-wake_times [] h = (refl, refl)
split_due-wake_times (x ∷ xs) h = elim (Bool-cases (x.delta_ticks == 1)) [
  | inl e ↦ let z : x.delta_ticks ≡ 1 = ground arith in rw z (ground (arith, all_due xs))
  | inr e ↦
      let wait = all_wait (0 + x.delta_ticks) xs (ground arith) in
      let sum : 0 + x.delta_ticks - 1 ≡ 0 + (x.delta_ticks - 1) = omega arith in
      ground (arith, wait, sum)
]
