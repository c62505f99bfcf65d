-- ===== src/Tasks/Sleep/Array.antt =====
-- What the loops over the array of the sleep queue leave in each slot.
use crap_os.Base.{
  ℕ, zero, suc, ◌+◌, ◌-◌, ◌≡◌, Option, none, ltb, ◌==◌, if◌then◌else◌, arith, update,
}
use crap_os.Tasks.Sleep.{SleepEntry, shift_right, shift_left}

abbrev pub Slots : Type 0
Slots = ℕ → Option SleepEntry

-- From the position `p` up to `i` the entries move one slot up; `p` is left empty.
pub shift_right_lem :
    (rounds p i : ℕ) (e : Slots) (j : ℕ)
    → i ≡ p + suc rounds
    → shift_right (suc rounds) i e j
      ≡ (if j == p then none else if ltb p j then (if ltb i j then e j else e (j - 1)) else e j)
unfolding shift_right
shift_right_lem zero p i e j h = ground arith
shift_right_lem (suc rounds) p i e j h =
    ground
      (arith, shift_right_lem rounds p (i - 1) (update (update e i (e (i - 1))) (i - 1) none) j)

-- From `i` on the entries move `rounds` slots down; the last of these slots is left empty.
pub shift_left_lem :
    (rounds i : ℕ) (e : Slots) (j : ℕ)
    → shift_left (suc rounds) i e j ≡ (
        if ltb j i
        then e j
        else if ltb j (i + suc rounds)
        then e (j + 1)
        else if j == i + suc rounds
        then none
        else e j)
unfolding shift_left
shift_left_lem zero i e j = ground arith
shift_left_lem (suc rounds) i e j =
    ground (arith, shift_left_lem rounds (i + 1) (update (update e i (e (i + 1))) (i + 1) none) j)
