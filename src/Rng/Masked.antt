-- ===== src/Rng/Masked.antt =====
-- A sound state, and the words that are drawn from it: those of the hardware, masked by the pool.
use crap_os.Base.{
  ap₂, bit_xor, get_or, ℕ, zero, suc, bit_and, refl, sym, ap, inl, inr, true, false, not, List, [],
  arith, length, ltb, every_below, every_below_sound, Bool-cases, ◌/◌, ◌+◌, ◌*◌, ◌%◌, ◌≤◌, ◌<◌, ◌≡◌,
  ◌∷◌, ◌||◌, ◌==◌, ◌∙◌,
}
use crap_os.Blake.{all_bytes, drop, le_bytes, take, words_of}
use crap_os.Blake.Lengths.{length-all_bytes, length-le_bytes, take-append, take_within}
use crap_os.Rng.{
  done, CpuRngState, Hardware, best_hardware_word, draw_rounds, fill_seed_buffer, init_cpu,
  reseed_cpu, reseed_if_due, reseed_interval, rng_draw_8_bytes, seed_words, xor_mix, xor_words,
}

-- The pool has 32 bytes, and the cursor is at one of its four words.
pub record IsRng (s : CpuRngState) : Type 0 where
  pub size : length s.pool ≡ 32
  pub inside : s.pool_cursor < 32
  pub aligned : s.pool_cursor % 8 ≡ 0

length-words_of : (n : ℕ) (bytes : List ℕ) → 8 * n ≤ length bytes → length (words_of n bytes) ≡ n
unfolding words_of
length-words_of zero bytes h = refl
length-words_of (suc n) (b0 ∷ b1 ∷ b2 ∷ b3 ∷ b4 ∷ b5 ∷ b6 ∷ b7 ∷ bytes) h =
    ap suc (length-words_of n bytes (omega arith))
length-words_of (suc n) [] h = absurd (omega arith)
length-words_of (suc n) (b0 ∷ []) h = absurd (omega arith)
length-words_of (suc n) (b0 ∷ b1 ∷ []) h = absurd (omega arith)
length-words_of (suc n) (b0 ∷ b1 ∷ b2 ∷ []) h = absurd (omega arith)
length-words_of (suc n) (b0 ∷ b1 ∷ b2 ∷ b3 ∷ []) h = absurd (omega arith)
length-words_of (suc n) (b0 ∷ b1 ∷ b2 ∷ b3 ∷ b4 ∷ []) h = absurd (omega arith)
length-words_of (suc n) (b0 ∷ b1 ∷ b2 ∷ b3 ∷ b4 ∷ b5 ∷ []) h = absurd (omega arith)
length-words_of (suc n) (b0 ∷ b1 ∷ b2 ∷ b3 ∷ b4 ∷ b5 ∷ b6 ∷ []) h = absurd (omega arith)

length-xor_words : (xs ys : List ℕ) → length xs ≡ length ys → length (xor_words xs ys) ≡ length xs
length-xor_words [] ys h = refl
length-xor_words (x ∷ xs) [] h = absurd (omega (arith, h))
length-xor_words (x ∷ xs) (y ∷ ys) h = ap suc (length-xor_words xs ys (omega (arith, h)))

length-xor_mix :
    (dst src : List ℕ) → length dst ≡ 32 → length src ≡ 32 → length (xor_mix dst src) ≡ 32
unfolding xor_mix
length-xor_mix dst src hd hs =
    let d = length-words_of 4 dst (omega (arith, hd)) in
    let s = length-words_of 4 src (omega (arith, hs)) in
    let x = length-xor_words (words_of 4 dst) (words_of 4 src) (d ∙ sym s) in
    length-all_bytes (xor_words (words_of 4 dst) (words_of 4 src)) ∙ omega (arith, x, d)

length-seed_words :
    (chunks : ℕ) (hw : Hardware) (time : ℕ) → length (seed_words chunks hw time).0 ≡ chunks
unfolding seed_words
length-seed_words zero hw time = refl
length-seed_words (suc chunks) hw time =
    ap suc (length-seed_words chunks hw (best_hardware_word true hw time).1)

length-fill_seed_buffer : (hw : Hardware) (time : ℕ) → length (fill_seed_buffer hw time).0 ≡ 32
unfolding fill_seed_buffer
length-fill_seed_buffer hw time =
    length-all_bytes (seed_words 4 hw time).0 ∙ omega (arith, length-seed_words 4 hw time)

-- A new state, and one that is seeded again.
pub init_cpu-IsRng : (hw : Hardware) (time : ℕ) → IsRng (init_cpu hw time).0
unfolding init_cpu
init_cpu-IsRng hw time = record {
  size = length-fill_seed_buffer hw time;
  inside = omega arith;
  aligned = omega arith;
}

pub reseed_if_due-IsRng :
    (hw : Hardware) (time : ℕ) (s : CpuRngState) → IsRng s → IsRng (reseed_if_due hw time s).0
unfolding reseed_if_due reseed_cpu
reseed_if_due-IsRng hw time s h = elim (Bool-cases (s.call_count % reseed_interval == 0)) [
  | inl e ↦ rw e (record {
    size =
        length-xor_mix s.pool (fill_seed_buffer hw time).0 h.size (length-fill_seed_buffer hw time);
    inside = h.inside;
    aligned = h.aligned;
  })
  | inr e ↦ rw e (record { size = h.size; inside = h.inside; aligned = h.aligned })
]

cursor_table :
    every_below 32 (λ c. not (c % 8 == 0) || (bit_and (c + 8) 0x18 == (c + 8) % 32)) ≡ true
unfolding every_below
cursor_table = refl

next_cursor : (c : ℕ) → c < 32 → c % 8 ≡ 0 → bit_and (c + 8) 0x18 ≡ (c + 8) % 32
next_cursor c h a =
    let entry =
      every_below_sound 32 (λ c. not (c % 8 == 0) || (bit_and (c + 8) 0x18 == (c + 8) % 32)) c
        cursor_table h in
    ground (arith, entry, a)

-- One word of output, and the time after it: a word of the hardware, masked with the word of the pool
-- at the cursor.
abbrev pub mask : Hardware → ℕ → List ℕ → ℕ → ℕ × ℕ
mask hw time pool cursor =
    let (hardware_word, later) = best_hardware_word false hw time in
    (bit_xor hardware_word (get_or (words_of 1 (drop cursor pool)) 0 0), later)

-- A number of such words, the cursor going round the pool.
unfoldable pub masked : ℕ → Hardware → ℕ → List ℕ → ℕ → List ℕ × ℕ
masked zero hw time pool cursor = ([], time)
masked (suc n) hw time pool cursor =
    let (word, later) = mask hw time pool cursor in
    let (words, end) = masked n hw later pool ((cursor + 8) % 32) in (word ∷ words, end)

draw-mask :
    (hw : Hardware) (time : ℕ) (s : CpuRngState)
    → IsRng s
    → rng_draw_8_bytes hw time s
      ≡ done (
        le_bytes 8 (mask hw time s.pool s.pool_cursor).0,
        (mask hw time s.pool s.pool_cursor).1,
        record s { pool_cursor = (s.pool_cursor + 8) % 32 },
      )
unfolding rng_draw_8_bytes
draw-mask hw time s h =
    let fits : ltb (length s.pool) (s.pool_cursor + 8) ≡ false =
      ground (arith, h.size, h.inside, h.aligned) in
    let next = next_cursor s.pool_cursor h.inside h.aligned in rw (fits, next) refl

pub moved-IsRng :
    (s : CpuRngState) (n : ℕ)
    → IsRng s
    → IsRng (record s { pool_cursor = (s.pool_cursor + 8 * n) % 32 })
moved-IsRng s n h = record {
  size = h.size;
  inside = omega arith;
  aligned = omega (arith, h.aligned);
}

-- The loop draws the masked words.
pub draw_rounds-masked :
    (rounds last n : ℕ) (hw : Hardware) (time : ℕ) (s : CpuRngState)
    → last < 8
    → n ≡ rounds + (last + 7) / 8
    → IsRng s
    → draw_rounds rounds last hw time s
      ≡ done (
        take (8 * rounds + last) (all_bytes (masked n hw time s.pool s.pool_cursor).0),
        (masked n hw time s.pool s.pool_cursor).1,
        record s { pool_cursor = (s.pool_cursor + 8 * n) % 32 },
      )
unfolding draw_rounds masked all_bytes
draw_rounds-masked zero zero n hw time s small count h =
    let z : n ≡ 0 = omega (arith, count) in
    let still : (s.pool_cursor + 0) % 32 ≡ s.pool_cursor = omega (arith, h.inside) in
    rw (z, still) refl
draw_rounds-masked zero (suc last) n hw time s small count h =
    let z : n ≡ 1 = omega (arith, count, small) in
    let one = draw-mask hw time s h in
    let (word, later) = mask hw time s.pool s.pool_cursor in
    let within =
      take_within (suc last) (le_bytes 8 word) [] (omega (arith, small, length-le_bytes 8 word)) in
    let flat : 8 * 0 + suc last ≡ suc last = omega arith in
    let s1 : CpuRngState = record s { pool_cursor = (s.pool_cursor + 8) % 32 } in
    rw (z, one, flat) (ap (λ bytes. done (bytes, later, s1)) (sym within))
draw_rounds-masked (suc rounds) last zero hw time s small count h = absurd (omega (arith, count))
draw_rounds-masked (suc rounds) last (suc n) hw time s small count h =
    let one = draw-mask hw time s h in
    let (word, later) = mask hw time s.pool s.pool_cursor in
    let s1 : CpuRngState = record s { pool_cursor = (s.pool_cursor + 8) % 32 } in
    let sound : IsRng s1 = moved-IsRng s 1 h in
    let ih = draw_rounds-masked rounds last n hw later s1 small (omega (arith, count)) sound in
    let rest = masked n hw later s.pool s1.pool_cursor in
    let bytes =
      take-append (8 * suc rounds + last) (8 * rounds + last) (le_bytes 8 word) (all_bytes rest.0)
        (omega (arith, length-le_bytes 8 word)) in
    let moved : (s1.pool_cursor + 8 * n) % 32 ≡ (s.pool_cursor + 8 * suc n) % 32 = omega arith in
    rw (one, ih) (ap₂ (λ b c. done (b, rest.1, record s { pool_cursor = c })) (sym bytes) moved)

pub length-masked :
    (n : ℕ) (hw : Hardware) (time : ℕ) (pool : List ℕ) (cursor : ℕ)
    → length (masked n hw time pool cursor).0 ≡ n
unfolding masked
length-masked zero hw time pool cursor = refl
length-masked (suc n) hw time pool cursor =
    ap suc (length-masked n hw (mask hw time pool cursor).1 pool ((cursor + 8) % 32))
