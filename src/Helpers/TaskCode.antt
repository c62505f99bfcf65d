-- ===== src/Helpers/TaskCode.antt =====
-- `compress_task_id` and `expand_task_id`.
use crap_os.Base.{ℕ, ◌*◌, ◌/◌, ◌%◌, ◌+◌, ◌^◌, ◌-◌, ◌<◌, ◌≡◌, arith, bit_or}
use crap_os.Base.Bits.{or_shifted, bit_or_comm}
use crap_os.Tasks.Ids.{TaskId, task_id}

-- The generation is a `u8` and the index a `usize` of 64 bits, cast to `u64`.
pub compress_task_id : TaskId → ℕ
compress_task_id t = bit_or t.slot_index ((t.slot_generation * 2 ^ 56) % 2 ^ 64)

unfoldable pub expand_task_id : ℕ → TaskId
expand_task_id encoded =
    let generation = (encoded / 2 ^ (64 - 8)) % 2 ^ 8 in
    let index = ((encoded * 2 ^ 8) % 2 ^ 64) / 2 ^ 8 in task_id index generation

compress_sum :
    (t : TaskId)
    → t.slot_index < 2 ^ 56
    → t.slot_generation < 2 ^ 8
    → compress_task_id t ≡ t.slot_generation * 2 ^ 56 + t.slot_index
unfolding compress_task_id
compress_sum t hi hg =
    let sum = or_shifted 56 t.slot_generation t.slot_index hi in
    let swap = bit_or_comm t.slot_index (t.slot_generation * 2 ^ 56) in ground (arith, sum, swap)

-- A task id whose index has 56 bits at most and whose generation is a byte is encoded without loss.
pub expand-compress :
    (t : TaskId)
    → t.slot_index < 2 ^ 56
    → t.slot_generation < 2 ^ 8
    → expand_task_id (compress_task_id t) ≡ t
unfolding expand_task_id
expand-compress t hi hg = ground (arith, compress_sum t hi hg)

-- Every 64-bit number is the encoding of the task id that it expands to.
pub compress-expand : (e : ℕ) → e < 2 ^ 64 → compress_task_id (expand_task_id e) ≡ e
unfolding expand_task_id
compress-expand e h =
    ground (arith, compress_sum (task_id (e * 2 ^ 8 % 2 ^ 64 / 2 ^ 8) (e / 2 ^ 56 % 2 ^ 8)))
