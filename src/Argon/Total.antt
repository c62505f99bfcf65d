-- ===== src/Argon/Total.antt =====
-- Argon2id returns a digest for every memory with four blocks for each lane.
use native.Mathlib.Nat.{le-div_iff_mul-le, mul-div_cancel, mul-le-mul_right}
use crap_os.Base.{
  ℕ, zero, suc, ◌+◌, ◌-◌, ◌*◌, ◌/◌, ◌%◌, ◌^◌, ◌≤◌, ◌<◌, ◌≡◌, refl, ap, ◌∙◌, true, false, ◌&&◌, ◌==◌,
  ltb, if◌then◌else◌, arith, inl, inr, Bool-cases, List, [], ◌∷◌, ◌++◌, length, length-set,
  length-replicate, get_elem?, get_or, set, replicate,
}
use crap_os.Argon.{
  Segment, argon2id_raw, block_words, compute_h0, h0_input, compute_pseudo_rands, data_independent,
  fill_block, fill_memory, fill_segment, final_block, h_prime_1024, hash_len, init_lane,
  lane_length, write_block,
}
use crap_os.Argon.Compress.{compress_blocks, xor_blocks}
use crap_os.Argon.Index.{
  IsFilled, IsSegment, block_at, block_at-fits, index_alpha-Ends, previous-Ends,
}
use crap_os.Blake.{all_bytes, le_bytes, take, words_of}
use crap_os.Blake.Lengths.{Returns, blake2b_512-Returns, h_prime-Returns, length-take}
use crap_os.Tasks.Outcome.{done, Ends, for-Ends, sub-done, unwrap}

-- A block in range is read, and written.
get_elem?-Ends :
    {A : Type 0} (xs : List A) (i : ℕ)
    → i < length xs
    → Ends (λ a. Unit {0}) (unwrap (get_elem? xs i))
get_elem?-Ends [] i h = absurd (omega arith)
get_elem?-Ends (x ∷ xs) zero h = (x, refl, tt)
get_elem?-Ends (x ∷ xs) (suc i) h = get_elem?-Ends xs i (omega arith)

write_block-Ends :
    (i total : ℕ) (block : List ℕ) (memory : List (List ℕ))
    → length memory ≡ total
    → i < total
    → Ends (λ m. length m ≡ total) (write_block i block memory)
write_block-Ends i total block memory size h =
    let e : ltb i (length memory) ≡ true = ground arith in
    (set memory i block, rw e refl, length-set memory i block ∙ size)

length-pseudo_rands :
    (rounds s : ℕ) (seg : Segment) → length (compute_pseudo_rands rounds s seg) ≡ rounds
unfolding compute_pseudo_rands
length-pseudo_rands zero s seg = refl
length-pseudo_rands (suc rounds) s seg = ap suc (length-pseudo_rands rounds (s + 1) seg)

-- The word that chooses the reference block.
chosen-Ends :
    (seg : Segment) (s : ℕ) (pseudo_rands prev : List ℕ)
    → s < seg.segment_len
    → (data_independent seg ≡ true → length pseudo_rands ≡ seg.segment_len)
    → Ends
        (λ x. Unit {0})
        (if data_independent seg then unwrap (get_elem? pseudo_rands s) else done (get_or prev 0 0))
chosen-Ends seg s pseudo_rands prev inside size = elim (Bool-cases (data_independent seg)) [
  | inl e ↦
      let n = size e in
      let (x, r, u) = get_elem?-Ends pseudo_rands s (omega (arith, n)) in (x, rw e r, tt)
  | inr e ↦ (get_or prev 0 0, rw e refl, tt)
]

fill_block-Ends :
    (seg : Segment) (pseudo_rands : List ℕ) (s : ℕ) (memory : List (List ℕ))
    → IsSegment seg
    → s < seg.segment_len
    → (data_independent seg ≡ true → length pseudo_rands ≡ seg.segment_len)
    → length memory ≡ seg.p * seg.lane_len
    → Ends (λ m. length m ≡ seg.p * seg.lane_len) (fill_block seg pseudo_rands s memory)
unfolding fill_block
fill_block-Ends seg pseudo_rands s memory h inside stream size =
    elim (Bool-cases ((seg.pass == 0) && ltb (block_at seg s) (seg.lane * seg.lane_len + 2))) [
      | inl e ↦ (memory, rw e refl, size)
      | inr e ↦
          let filled : IsFilled seg s = record { inside = inside; started = λ p. ground arith } in
          let (i, e1, in1) = previous-Ends seg s h inside in
          let (prev, e2, u2) = get_elem?-Ends memory i (omega (arith, in1)) in
          let (x, e3, u3) = chosen-Ends seg s pseudo_rands prev inside stream in
          let (j, e4, in4) = index_alpha-Ends x seg s h filled in
          let (refb, e5, u5) = get_elem?-Ends memory j (omega (arith, in4.0)) in
          let (m, e6, n) =
            write_block-Ends (block_at seg s) (seg.p * seg.lane_len) (compress_blocks prev refb)
              memory size (block_at-fits seg s h inside) in
          (m, rw e (rw e1 (rw e2 (rw e3 (rw e4 (rw e5 e6))))), n)
    ]

fill_segment-Ends :
    (seg : Segment) (memory : List (List ℕ))
    → IsSegment seg
    → length memory ≡ seg.p * seg.lane_len
    → Ends (λ m. length m ≡ seg.p * seg.lane_len) (fill_segment seg memory)
unfolding fill_segment
fill_segment-Ends seg memory h size =
    let stream = if data_independent seg then compute_pseudo_rands seg.segment_len 0 seg else [] in
    for-Ends (λ m. length m ≡ seg.p * seg.lane_len) seg.segment_len 0 (fill_block seg stream) memory
      (λ s m lo hi n.
        fill_block-Ends seg stream s m h (omega arith)
          (λ e.
            (let same : stream ≡ compute_pseudo_rands seg.segment_len 0 seg = rw e refl in
              ap length same ∙ length-pseudo_rands seg.segment_len 0 seg))
          n)
      size

fill_memory-Ends :
    (lane_len p t_cost : ℕ) (memory : List (List ℕ))
    → lane_len % 4 ≡ 0
    → 0 < lane_len
    → length memory ≡ p * lane_len
    → Ends (λ m. length m ≡ p * lane_len) (fill_memory lane_len p t_cost memory)
unfolding fill_memory
fill_memory-Ends lane_len p t_cost memory quarters nonempty size =
    for-Ends (λ m. length m ≡ p * lane_len) t_cost 0 _ memory
      (λ pass m lo1 hi1 n.
        for-Ends (λ m. length m ≡ p * lane_len) 4 0 _ m
          (λ slice m lo2 hi2 n.
            for-Ends (λ m. length m ≡ p * lane_len) p 0 _ m
              (λ lane m lo hi n.
                fill_segment-Ends _ m
                  (record {
                    in_lanes = omega arith;
                    in_lane = omega arith;
                    quarters = omega arith;
                    nonempty = omega arith;
                  })
                  n)
              n)
          n)
      size

pub h_prime_1024-Ends : (h0 : List ℕ) (i lane : ℕ) → Ends (λ b. Unit {0}) (h_prime_1024 h0 i lane)
unfolding h_prime_1024
h_prime_1024-Ends h0 i lane =
    let (bytes, e, n) = h_prime-Returns (h0 ++ le_bytes 4 i ++ le_bytes 4 (lane % 2 ^ 32)) 1024 in
    let whole : ltb (length bytes) (8 * block_words) ≡ false = ground (arith, n) in
    (words_of block_words bytes, rw e (rw whole refl), tt)

init_lane-Ends :
    (h0 : List ℕ) (lane_len p l : ℕ) (memory : List (List ℕ))
    → l < p
    → 2 ≤ lane_len
    → length memory ≡ p * lane_len
    → Ends (λ m. length m ≡ p * lane_len) (init_lane h0 lane_len l memory)
unfolding init_lane
init_lane-Ends h0 lane_len p l memory inside two size =
    let room = mul-le-mul_right {m = suc l} {n = p} lane_len inside in
    let (b0, e0, u0) = h_prime_1024-Ends h0 0 l in
    let (b1, e1, u1) = h_prime_1024-Ends h0 1 l in
    let (m, e2, n) =
      write_block-Ends (l * lane_len) (p * lane_len) b0 memory size (omega (arith, room)) in
    let (m', e3, n') =
      write_block-Ends (l * lane_len + 1) (p * lane_len) b1 m n (omega (arith, room)) in
    (m', rw e0 (rw e1 (rw e2 e3)), n')

final_block-Ends :
    (lane_len p : ℕ) (memory : List (List ℕ))
    → 0 < lane_len
    → length memory ≡ p * lane_len
    → Ends (λ b. Unit {0}) (final_block lane_len p memory)
unfolding final_block
final_block-Ends lane_len p memory nonempty size =
    for-Ends (λ b. Unit {0}) p 0 _ (replicate block_words 0)
      (λ l block lo hi u.
        (let room = mul-le-mul_right {m = suc l} {n = p} lane_len (omega arith) in
          let end = sub-done lane_len 1 nonempty in
          let (last, e, u') =
            get_elem?-Ends memory (l * lane_len + (lane_len - 1))
              (omega (arith, room, size, nonempty)) in
          (xor_blocks block last, rw end (rw e refl), tt)))
      tt

-- The layout: the lanes have four segments each, and fill the memory.
lane_length-quarters :
    (m_cost p : ℕ)
    → 0 < p
    → 4 * p ≤ m_cost
    → (m_cost / (4 * p) * (4 * p) ≡ p * lane_length m_cost p)
      × (lane_length m_cost p % 4 ≡ 0)
      × (4 ≤ lane_length m_cost p)
lane_length-quarters m_cost p some_p h =
    let q = m_cost / (4 * p) in
    let one : 1 ≤ q =
      (le-div_iff_mul-le {k = 4 * p} {x = 1} {y = m_cost} (omega arith)).1 (omega arith) in
    let whole : q * (4 * p) ≡ 4 * q * p = grind arith in
    let lane : lane_length m_cost p ≡ 4 * q =
      ap (λ n. n / p) whole ∙ mul-div_cancel (4 * q) some_p in
    (whole ∙ rw lane (grind arith), omega (arith, lane), omega (arith, lane, one))

pub compute_h0-Returns :
    (password salt : List ℕ) (m_cost t_cost p : ℕ)
    → Returns 64 (compute_h0 password salt m_cost t_cost p)
unfolding compute_h0
compute_h0-Returns password salt m_cost t_cost p =
    blake2b_512-Returns (h0_input password salt m_cost t_cost p)

-- With a lane at least and four blocks for each, Argon2id returns a digest of 32 bytes.
pub argon2id_raw-Returns :
    (password salt : List ℕ) (m_cost t_cost p : ℕ)
    → 0 < p
    → 4 * p ≤ m_cost
    → Returns hash_len (argon2id_raw password salt m_cost t_cost p)
unfolding argon2id_raw
argon2id_raw-Returns password salt m_cost t_cost p some_p room =
    let lane_len = lane_length m_cost p in
    let (whole, quarters, four) = lane_length-quarters m_cost p some_p room in
    let (h0, e0, n0) = compute_h0-Returns password salt m_cost t_cost p in
    let blank = replicate (m_cost / (4 * p) * (4 * p)) (replicate block_words 0) in
    let size : length blank ≡ p * lane_len =
      length-replicate (m_cost / (4 * p) * (4 * p)) (replicate block_words 0) ∙ whole in
    let (m1, e1, n1) =
      for-Ends (λ m. length m ≡ p * lane_len) p 0 (init_lane h0 lane_len) blank
        (λ l m lo hi n. init_lane-Ends h0 lane_len p l m (omega arith) (omega (arith, four)) n)
        size in
    let (m2, e2, n2) = fill_memory-Ends lane_len p t_cost m1 quarters (omega (arith, four)) n1 in
    let (block, e3, u) = final_block-Ends lane_len p m2 (omega (arith, four)) n2 in
    let (digest, e4, n4) = h_prime-Returns (all_bytes block) hash_len in
    let long : ltb (length digest) hash_len ≡ false = ground (arith, n4) in
    let some_lane : (p == 0) ≡ false = ground arith in
    (
      take hash_len digest,
      rw some_lane (rw e0 (rw e1 (rw e2 (rw e3 (rw e4 (rw long refl)))))),
      length-take hash_len digest (omega (arith, n4)),
    )
