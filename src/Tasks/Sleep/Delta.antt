-- ===== src/Tasks/Sleep/Delta.antt =====
-- Delta lists, and the ticks after which each task wakes.
use crap_os.Base.{
  ℕ, zero, suc, ◌+◌, ◌-◌, ◌≤◌, ◌≡◌, refl, List, [], ◌∷◌, ltb, leb, ◌==◌, arith, if◌then◌else◌, some,
  get_elem?, length, Bool-cases, inl, inr,
}
use crap_os.Tasks.Ids.{TaskId}
use crap_os.Tasks.Sleep.{SleepEntry, shorten}

abbrev pub entry : ℕ → TaskId → SleepEntry
entry d id = record { delta_ticks = d; task_id = id }

-- A new entry goes before the first one that does not wake earlier, which is shortened by it.
unfoldable pub insert_delta : ℕ → TaskId → List SleepEntry → List SleepEntry
insert_delta r id [] = entry r id ∷ []
insert_delta r id (x ∷ xs) =
    if leb r x.delta_ticks
    then entry r id ∷ record x { delta_ticks = x.delta_ticks - r } ∷ xs
    else x ∷ insert_delta (r - x.delta_ticks) id xs

-- The position of the new entry, and its ticks there.
unfoldable pub spot : ℕ → List SleepEntry → ℕ × ℕ
spot r [] = (0, r)
spot r (x ∷ xs) =
    let next = spot (r - x.delta_ticks) xs in
    if leb r x.delta_ticks then (0, r) else (suc next.0, next.1)

pub spot-le-length : (r : ℕ) (xs : List SleepEntry) → (spot r xs).0 ≤ length xs
unfolding spot
spot-le-length r [] = omega arith
spot-le-length r (x ∷ xs) = ground (arith, spot-le-length (r - x.delta_ticks) xs)

-- The list after an insertion, index by index.
pub get-insert_delta :
    (r : ℕ) (id : TaskId) (xs : List SleepEntry) (j : ℕ)
    → get_elem? (insert_delta r id xs) j ≡ (
        if j == (spot r xs).0
        then some (entry (spot r xs).1 id)
        else if ltb (spot r xs).0 j
        then (if j == (spot r xs).0 + 1
            then shorten (spot r xs).1 (get_elem? xs (j - 1))
            else get_elem? xs (j - 1))
        else get_elem? xs j)
unfolding insert_delta spot
get-insert_delta r id [] zero = refl
get-insert_delta r id [] (suc j) = ground arith
get-insert_delta r id (x ∷ xs) zero = ground arith
get-insert_delta r id (x ∷ xs) (suc zero) =
    ground (arith, get-insert_delta (r - x.delta_ticks) id xs zero)
get-insert_delta r id (x ∷ xs) (suc (suc j)) =
    ground (arith, get-insert_delta (r - x.delta_ticks) id xs (suc j))

pub length-insert_delta :
    (r : ℕ) (id : TaskId) (xs : List SleepEntry) → length (insert_delta r id xs) ≡ suc (length xs)
unfolding insert_delta
length-insert_delta r id [] = refl
length-insert_delta r id (x ∷ xs) = ground (arith, length-insert_delta (r - x.delta_ticks) id xs)

-- The ticks until each task wakes, `base` ticks ahead of the head.
unfoldable pub wake_times : ℕ → List SleepEntry → List (ℕ × TaskId)
wake_times base [] = []
wake_times base (x ∷ xs) = (base + x.delta_ticks, x.task_id) ∷ wake_times (base + x.delta_ticks) xs

-- A task with its ticks, put before the first one that does not wake earlier.
unfoldable pub schedule_wake : ℕ → TaskId → List (ℕ × TaskId) → List (ℕ × TaskId)
schedule_wake t id [] = (t, id) ∷ []
schedule_wake t id ((u, other) ∷ ts) =
    if leb t u then (t, id) ∷ (u, other) ∷ ts else (u, other) ∷ schedule_wake t id ts

-- An insertion leaves the wake time of every other task as it is.
pub wake_times-insert_delta :
    (base r : ℕ) (id : TaskId) (xs : List SleepEntry)
    → wake_times base (insert_delta r id xs) ≡ schedule_wake (base + r) id (wake_times base xs)
unfolding insert_delta wake_times schedule_wake
wake_times-insert_delta base r id [] = refl
wake_times-insert_delta base r id (x ∷ xs) = elim (Bool-cases (leb r x.delta_ticks)) [
  | inl e ↦
      let sum : base + r + (x.delta_ticks - r) ≡ base + x.delta_ticks = ground arith in
      ground (arith, sum)
  | inr e ↦
      let sum : base + x.delta_ticks + (r - x.delta_ticks) ≡ base + r = ground arith in
      ground (arith, sum, wake_times-insert_delta (base + x.delta_ticks) (r - x.delta_ticks) id xs)
]
