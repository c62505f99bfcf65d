-- ===== src/Rng.antt =====
-- The random numbers of a CPU (crap_os/src/crypto/rng.rs). What the processor's instructions and
-- counters give is a function of the number of times that it was asked before, the time.
pub mod Draws
pub mod Masked
pub mod Pseudo
use crap_os.Base.{
  ℕ, zero, suc, bit_and, bit_xor, Bool, true, false, Option, none, some, List, [], length, get_or,
  update, ltb, ◌/◌, ◌+◌, ◌*◌, ◌%◌, ◌^◌, ◌∷◌, ◌++◌, ◌&&◌, ◌==◌, if◌then◌else◌,
}
use crap_os.Blake.{drop, all_bytes, le_bytes, rotate_right, take, words_of, wrapping_add}
use crap_os.Tasks.Outcome.{Outcome, done, panic, ◌>>=◌}

abbrev pub reseed_interval : ℕ
reseed_interval = 64

abbrev hw_retry_limit : ℕ
hw_retry_limit = 16

-- The random number instructions fail when they have no number ready.
pub record Hardware : Type 0 where
  pub has_rdrand : Bool
  pub has_rdseed : Bool
  pub rdrand : ℕ → Option ℕ
  pub rdseed : ℕ → Option ℕ
  pub jitter : ℕ → ℕ

pub record CpuRngState : Type 0 where
  pub pool : List ℕ
  pub call_count : ℕ
  pub pool_cursor : ℕ
  pub xoshiro_state : List ℕ

-- The loops of `rdrand64` and `rdseed64`: the tries that are left, and the time.
unfoldable pub retry : ℕ → (ℕ → Option ℕ) → ℕ → Option ℕ × ℕ
retry zero ask time = (none, time)
retry (suc left) ask time =
    let rest = retry left ask (time + 1) in
    elim (ask time) [ some value ↦ (some value, time + 1) | none ↦ rest ]

abbrev rdrand64 : Hardware → ℕ → Option ℕ × ℕ
rdrand64 hw time = retry hw_retry_limit hw.rdrand time

abbrev rdseed64 : Hardware → ℕ → Option ℕ × ℕ
rdseed64 hw time = retry hw_retry_limit hw.rdseed time

abbrev wymix : ℕ → ℕ → ℕ
wymix a b = let r = a * b in bit_xor (r % 2 ^ 64) (r / 2 ^ 64)

-- From the counters that were read.
unfoldable pub jitter_sample : ℕ → ℕ → ℕ → ℕ
jitter_sample tsc_before hpet_val tsc_after =
    let a = wymix (bit_xor tsc_before 0x2d358dccaa6c78a5) (bit_xor hpet_val 0x8bb84b93962eacc9) in
    let b =
      wymix (bit_xor tsc_after 0x2d358dccaa6c78a5)
        (bit_xor (rotate_right hpet_val 47) 0x8bb84b93962eacc9) in
    bit_xor a b

-- `unwrap_or_else(jitter)`
abbrev or_jitter : Hardware → Option ℕ × ℕ → ℕ × ℕ
or_jitter hw (none, time) = (hw.jitter time, time + 1)
or_jitter hw (some value, time) = (value, time)

-- `or_else(rdrand64)`
abbrev or_rdrand : Hardware → Option ℕ × ℕ → Option ℕ × ℕ
or_rdrand hw (none, time) = rdrand64 hw time
or_rdrand hw (some value, time) = (some value, time)

unfoldable pub best_hardware_word : Bool → Hardware → ℕ → ℕ × ℕ
unfolding retry
best_hardware_word prefer_seed hw time =
    if prefer_seed && hw.has_rdseed
    then or_jitter hw (or_rdrand hw (rdseed64 hw time))
    else if hw.has_rdrand
    then or_jitter hw (rdrand64 hw time)
    else (hw.jitter time, time + 1)

abbrev xor_words : List ℕ → List ℕ → List ℕ
xor_words [] ys = []
xor_words (x ∷ xs) [] = []
xor_words (x ∷ xs) (y ∷ ys) = bit_xor x y ∷ xor_words xs ys

-- Four words of each.
unfoldable pub xor_mix : List ℕ → List ℕ → List ℕ
xor_mix dst src = all_bytes (xor_words (words_of 4 dst) (words_of 4 src))

-- The chunks that are left, the time, and the words so far.
unfoldable pub seed_words : ℕ → Hardware → ℕ → List ℕ × ℕ
unfolding best_hardware_word
seed_words zero hw time = ([], time)
seed_words (suc chunks) hw time =
    let (word, later) = best_hardware_word true hw time in
    let (words, end) = seed_words chunks hw later in (word ∷ words, end)

unfoldable pub fill_seed_buffer : Hardware → ℕ → List ℕ × ℕ
unfolding seed_words
fill_seed_buffer hw time = let (words, end) = seed_words 4 hw time in (all_bytes words, end)

-- A slice past the end of the pool panics.
unfoldable pub rng_draw_8_bytes : Hardware → ℕ → CpuRngState → Outcome (List ℕ × ℕ × CpuRngState)
unfolding best_hardware_word
rng_draw_8_bytes hw time s =
    let cursor = s.pool_cursor in
    let (hardware_word, later) = best_hardware_word false hw time in
    let word = get_or (words_of 1 (drop cursor s.pool)) 0 0 in
    if ltb (length s.pool) (cursor + 8)
    then panic
    else done (
      le_bytes 8 (bit_xor hardware_word word),
      later,
      record s { pool_cursor = bit_and (cursor + 8) 0x18 },
    )

unfoldable pub xoshiro256pp : List ℕ → ℕ × List ℕ
xoshiro256pp state =
    let s0 = get_or state 0 0 in
    let s1 = get_or state 1 0 in
    let s2 = get_or state 2 0 in
    let s3 = get_or state 3 0 in
    let result = wrapping_add (rotate_right (wrapping_add s0 s3) 41) s0 in
    let update = s1 * 2 ^ 17 % 2 ^ 64 in
    let t2 = bit_xor s2 s0 in
    let t3 = bit_xor s3 s1 in
    let t1 = bit_xor s1 t2 in
    let t0 = bit_xor s0 t3 in (result, t0 ∷ t1 ∷ bit_xor t2 update ∷ rotate_right t3 19 ∷ [])

unfoldable pub prng_draw_8_bytes : CpuRngState → List ℕ × CpuRngState
unfolding xoshiro256pp
prng_draw_8_bytes s =
    let (word, state) = xoshiro256pp s.xoshiro_state in
    (le_bytes 8 word, record s { xoshiro_state = state })

unfoldable pub init_cpu : Hardware → ℕ → CpuRngState × ℕ
unfolding fill_seed_buffer
init_cpu hw time =
    let (initial_pool, end) = fill_seed_buffer hw time in
    (
      record {
        pool = initial_pool;
        call_count = 0;
        pool_cursor = 0;
        xoshiro_state = words_of 4 initial_pool;
      },
      end,
    )

unfoldable pub reseed_cpu : Hardware → ℕ → CpuRngState → CpuRngState × ℕ
unfolding fill_seed_buffer xor_mix
reseed_cpu hw time s =
    let (fresh, end) = fill_seed_buffer hw time in (record s { pool = xor_mix s.pool fresh }, end)

-- The block at the start of `get_random_bytes`.
unfoldable pub reseed_if_due : Hardware → ℕ → CpuRngState → CpuRngState × ℕ
unfolding reseed_cpu
reseed_if_due hw time s =
    let (mixed, end) =
      if s.call_count % reseed_interval == 0 then reseed_cpu hw time s else (s, time) in
    (record mixed { call_count = (mixed.call_count + 1) % 2 ^ 32 }, end)

-- The loop, with the rounds of eight bytes that are left, and the last bytes.
unfoldable pub draw_rounds : ℕ → ℕ → Hardware → ℕ → CpuRngState → Outcome (List ℕ × ℕ × CpuRngState)
unfolding rng_draw_8_bytes
draw_rounds zero zero hw time s = done ([], time, s)
draw_rounds zero (suc last) hw time s =
    rng_draw_8_bytes hw time s >>= λ (word, later, s'). done (take (suc last) word, later, s')
draw_rounds (suc rounds) last hw time s = rng_draw_8_bytes hw time s >>= λ (word, later, s').
    draw_rounds rounds last hw later s' >>= λ (bytes, end, s''). done (word ++ bytes, end, s'')

unfoldable pub get_random_bytes :
    ℕ → Hardware → ℕ → CpuRngState → Outcome (List ℕ × ℕ × CpuRngState)
unfolding reseed_if_due draw_rounds
get_random_bytes len hw time s =
    let (due, later) = reseed_if_due hw time s in
    if len == 0 then done ([], time, s) else draw_rounds (len / 8) (len % 8) hw later due

unfoldable pub pseudo_rounds : ℕ → ℕ → CpuRngState → List ℕ × CpuRngState
unfolding prng_draw_8_bytes
pseudo_rounds zero zero s = ([], s)
pseudo_rounds zero (suc last) s = let (word, s') = prng_draw_8_bytes s in (take (suc last) word, s')
pseudo_rounds (suc rounds) last s =
    let (word, s') = prng_draw_8_bytes s in
    let (bytes, s'') = pseudo_rounds rounds last s' in (word ++ bytes, s'')

unfoldable pub get_pseudo_random_bytes : ℕ → CpuRngState → List ℕ × CpuRngState
unfolding pseudo_rounds
get_pseudo_random_bytes len s = if len == 0 then ([], s) else pseudo_rounds (len / 8) (len % 8) s
