-- ===== src/Tasks/Sleep/Refine.antt =====
-- The array holds a delta list, and each operation on it is the operation on the list.
use crap_os.Base.{
  false, ◌&&◌, ◌∙◌, ℕ, suc, ◌+◌, ◌-◌, ◌<◌, ◌≤◌, ◌≡◌, ◌≢◌, refl, ap, some, List, [], ◌∷◌, ltb, leb,
  ◌==◌, if◌then◌else◌, arith, get_elem?, length, get_elem?-none, Bool-cases, inl, inr,
}
use crap_os.Tasks.Ids.{TaskId}
use crap_os.Tasks.Sleep.{
  shorten, place, SleepEntry, SleepQueue, find_position, insert, shift_right, max_sleep_entries,
  empty_queue,
}
use crap_os.Tasks.Sleep.Array.{Slots, shift_right_lem}
use crap_os.Tasks.Sleep.Delta.{
  entry, spot, insert_delta, get-insert_delta, spot-le-length, length-insert_delta,
}

-- The queue holds the entries `xs`, in order and without a gap; the slots behind them are empty.
pub record Sleeps (q : SleepQueue) (xs : List SleepEntry) : Type 0 where
  pub count : q.queue_len ≡ length xs
  pub fits : length xs ≤ max_sleep_entries
  pub slot : (i : ℕ) → q.entries i ≡ get_elem? xs i

pub Sleeps-empty : Sleeps empty_queue []
Sleeps-empty = record { count = refl; fits = omega arith; slot = λ i. refl }

find_position-spot :
    (e : Slots) (xs : List SleepEntry) (i r : ℕ)
    → ((k : ℕ) → e (i + k) ≡ get_elem? xs k)
    → find_position e (length xs) i r ≡ (i + (spot r xs).0, (spot r xs).1)
unfolding find_position spot
find_position-spot e [] i r slot = ground arith
find_position-spot e (x ∷ xs) i r slot =
    let first : e i ≡ some x = ap e (omega arith) ∙ slot 0 in
    let ih =
      find_position-spot e xs (i + 1) (r - x.delta_ticks)
        (λ k. ap e (omega arith) ∙ slot (suc k)) in
    ground (arith, first, ih)

place_entries :
    (q : SleepQueue) (p r : ℕ) (id : TaskId) (j : ℕ)
    → p ≤ q.queue_len
    → (place p r id q).entries j ≡ (
        if j == p
        then some (entry r id)
        else if (ltb p j && ltb p q.queue_len) && leb j q.queue_len
        then (if j == p + 1 then shorten r (q.entries (j - 1)) else q.entries (j - 1))
        else q.entries j)
unfolding place
place_entries q p r id j h = elim (Bool-cases (p == q.queue_len)) [
  | inl e ↦ unfold shift_right in ground arith
  | inr e ↦
      let n : q.queue_len - p ≡ suc (q.queue_len - p - 1) = ground arith in
      let moved =
        λ (i : ℕ). shift_right_lem (q.queue_len - p - 1) p q.queue_len q.entries i (ground arith) in
      rw n (ground (arith, moved j, moved (p + 1)))
]

-- `insert` puts the entry at its place in the list.
pub insert-Sleeps :
    (q : SleepQueue) (xs : List SleepEntry) (id : TaskId) (ticks : ℕ)
    → Sleeps q xs
    → ticks ≢ 0
    → length xs < max_sleep_entries
    → Sleeps (insert id ticks q) (insert_delta ticks id xs)
insert-Sleeps q xs id ticks h pos room = rw inserted (record {
  count = unfold place in omega (arith, h.count, length-insert_delta ticks id xs);
  fits = omega (arith, length-insert_delta ticks id xs);
  slot = λ j. ground (
    arith,
    h.count,
    h.slot j,
    h.slot (j - 1),
    place_entries q p r id j (omega (arith, h.count, spot-le-length ticks xs)),
    get-insert_delta ticks id xs j,
    spot-le-length ticks xs,
    get_elem?-none xs j,
    get_elem?-none xs (j - 1),
  );
})
  where
    p : ℕ
    p = (spot ticks xs).0

    r : ℕ
    r = (spot ticks xs).1

    found : find_position q.entries q.queue_len 0 ticks ≡ (p, r)
    found = rw h.count (
        find_position-spot q.entries xs 0 ticks (λ k. ap q.entries (omega arith) ∙ h.slot k)
        ∙ ground arith)

    inserted : insert id ticks q ≡ place p r id q
    inserted =
        let some_ticks : (ticks == 0) ≡ false = ground arith in
        let not_full : (q.queue_len == max_sleep_entries) ≡ false = ground (arith, h.count) in
        unfold insert in rw (some_ticks, not_full, found)
