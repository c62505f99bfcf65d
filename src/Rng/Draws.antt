-- ===== src/Rng/Draws.antt =====
-- Random bytes of any length, from a pool of 32 bytes.
use crap_os.Base.{◌^◌, ℕ, List, length, ◌/◌, ◌+◌, ◌*◌, ◌%◌, ◌≡◌, ◌==◌, if◌then◌else◌}
use crap_os.Blake.{all_bytes, take}
use crap_os.Rng.{CpuRngState, Hardware, fill_seed_buffer, xor_mix}
use crap_os.Rng.Masked.{IsRng, masked}

-- The pool that a call draws from, and the time when it begins: mixed with a fresh one in every 64th call.
abbrev pub mixed : Hardware → ℕ → CpuRngState → List ℕ × ℕ
mixed hw time s =
    let (fresh, later) = fill_seed_buffer hw time in
    if s.call_count % 64 == 0 then (xor_mix s.pool fresh, later) else (s.pool, time)

-- What `get_random_bytes` gives for a length that is not zero.
pub record Drawn (len : ℕ) (hw : Hardware) (time : ℕ) (s : CpuRngState) (bytes : List ℕ) (end : ℕ)
    (s' : CpuRngState) : Type 0 where
  pub size : length bytes ≡ len
  pub sound : IsRng s'
  pub content :
      bytes
      ≡ take len (
          all_bytes
            (masked ((len + 7) / 8) hw (mixed hw time s).1 (mixed hw time s).0 s.pool_cursor).0)
  pub ended :
      end ≡ (masked ((len + 7) / 8) hw (mixed hw time s).1 (mixed hw time s).0 s.pool_cursor).1
  pub pool : s'.pool ≡ (mixed hw time s).0
  pub call_count : s'.call_count ≡ (s.call_count + 1) % 2 ^ 32
  pub cursor : s'.pool_cursor ≡ (s.pool_cursor + 8 * ((len + 7) / 8)) % 32
  pub xoshiro_state : s'.xoshiro_state ≡ s.xoshiro_state
