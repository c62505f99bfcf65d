-- ===== src/Ring.antt =====
-- The ring buffers that the ready queue, the system task queue, the reaper queue and the tombstone
-- queue share: an array of `2 ^ w` slots as a function of the index, two indices and a count.
pub mod Fifo
pub mod Runs
pub mod Window
use crap_os.Base.{
  ℕ, ◌+◌, ◌-◌, ◌*◌, ◌^◌, ◌<◌, ◌≤◌, ◌%◌, ◌≡◌, Bool, Option, none, some, List, ◌==◌, if◌then◌else◌,
  update, bit_and,
}

pub record Ring (E : Type 0) : Type 0 where
  pub slots : ℕ → E
  pub head : ℕ
  pub tail : ℕ
  pub queue_len : ℕ

abbrev pub empty_ring : {E : Type 0} → E → Ring E
empty_ring e = record { slots = λ _. e; head = 0; tail = 0; queue_len = 0 }

-- An index advanced by one under the mask of `w` ones.
abbrev pub advance : ℕ → ℕ → ℕ
advance w i = bit_and (i + 1) (2 ^ w - 1)

module _ {E : Type 0} (w : ℕ) where
  -- `none` is a full ring.
  unfoldable pub push : E → Ring E → Option (Ring E)
  push e r =
      if r.queue_len == 2 ^ w
      then none
      else some (record r {
        slots = update r.slots r.tail e;
        tail = advance w r.tail;
        queue_len = r.queue_len + 1;
      })

  -- The entry at the head, which stays in its slot.
  unfoldable pub pop : Ring E → Option E × Ring E
  pop r = if r.queue_len == 0 then (none, r) else (
    some (r.slots r.head),
    record r { head = advance w r.head; queue_len = r.queue_len - 1 },
  )

-- `take()` on the slot at the head, which is left empty.
unfoldable pub pop_take : {E : Type 0} → ℕ → Ring (Option E) → Option E × Ring (Option E)
pop_take w r = if r.queue_len == 0 then (none, r) else (
  r.slots r.head,
  record r {
    slots = update r.slots r.head none;
    head = advance w r.head;
    queue_len = r.queue_len - 1;
  },
)
