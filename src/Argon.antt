-- ===== src/Argon.antt =====
-- Argon2id (crap_os/src/crypto/hash/argon2.rs): the filling of the memory. A block is the list of its
-- 128 words, the memory the list of its blocks. An index out of range and a subtraction below zero panic.
pub mod Compress
pub mod Bytes
pub mod Cut
pub mod Index
pub mod Numbers
pub mod Password
pub mod Phc
pub mod Total
use crap_os.Base.{
  ℕ, zero, suc, ◌+◌, ◌-◌, ◌*◌, ◌/◌, ◌%◌, ◌^◌, Bool, true, false, not, ◌&&◌, Option, none, some,
  List, [], ◌∷◌, ◌++◌, length, get_elem?, get_or, set, replicate, ◌==◌, ltb, leb, if◌then◌else◌,
  bit_xor,
}
use crap_os.Blake.{
  all_bytes, blake2b_512, h_prime, le_bytes, rotate_right, take, words_of, wrapping_add,
}
use crap_os.Tasks.Outcome.{Outcome, done, panic, no_fuel, ◌>>=◌, for, sub, unwrap}
use crap_os.Argon.Compress.{compress_blocks, xor_blocks, trunc32}

abbrev pub argon2_version : ℕ
argon2_version = 19

abbrev pub argon2_type_id : ℕ
argon2_type_id = 2

abbrev pub block_words : ℕ
block_words = 128

abbrev pub hash_len : ℕ
hash_len = 32

-- Where a segment is, and the layout of the memory.
pub record Segment : Type 0 where
  pub pass : ℕ
  pub lane : ℕ
  pub slice : ℕ
  pub lane_len : ℕ
  pub segment_len : ℕ
  pub p : ℕ
  pub t_cost : ℕ

-- From the position in the lane and in the segment.
abbrev area_of : Segment → ℕ → ℕ → Outcome ℕ
area_of seg rel in_slice =
    let others? = sub seg.lane_len seg.segment_len >>= λ others. sub (others + in_slice) 1 in
    let later? =
      others? >>= λ area. (sub seg.p 1 >>= λ lanes. done (area + lanes * seg.lane_len)) in
    if not (seg.pass == 0)
    then later?
    else if seg.slice == 0
    then sub rel 1
    else sub (seg.slice * seg.segment_len + in_slice) 1

-- The size of the reference set.
abbrev pub reference_area : Segment → ℕ → Outcome ℕ
reference_area seg abs_idx = do
  rel ← sub abs_idx (seg.lane * seg.lane_len)
  in_slice ←
      if (seg.pass == 0) && (seg.slice == 0)
      then done rel
      else sub rel (seg.slice * seg.segment_len)
  area_of seg rel in_slice

abbrev pub reference_start : Segment → ℕ
reference_start seg =
    if seg.pass == 0
    then seg.lane * seg.lane_len
    else seg.lane * seg.lane_len + (seg.slice + 1) % 4 * seg.segment_len

abbrev pub relative_position : ℕ → ℕ → ℕ
relative_position pseudo_rand area =
    let x = pseudo_rand % 2 ^ 32 in let z = (x + x * x / 2 ^ 32) / 2 in area - 1 - z % area

unfoldable pub index_alpha : ℕ → Segment → ℕ → Outcome ℕ
index_alpha pseudo_rand seg abs_idx =
    let blocks = seg.p * seg.lane_len in
    reference_area seg abs_idx >>= λ area.
    if area == 0
    then done (seg.lane * seg.lane_len)
    else if blocks == 0
    then panic
    else done ((reference_start seg + relative_position pseudo_rand area) % blocks)

abbrev pub input_block : Segment → ℕ → List ℕ
input_block seg s =
    seg.pass
    ∷ seg.lane
    ∷ seg.slice
    ∷ (s + 1)
    ∷ seg.t_cost
    ∷ seg.p
    ∷ argon2_type_id
    ∷ replicate (block_words - 7) 0

-- The pseudo-random words from an index on.
unfoldable pub compute_pseudo_rands : ℕ → ℕ → Segment → List ℕ
compute_pseudo_rands zero s seg = []
compute_pseudo_rands (suc rounds) s seg =
    get_or (compress_blocks (replicate block_words 0) (input_block seg s)) 0 0
    ∷ compute_pseudo_rands rounds (s + 1) seg

abbrev pub write_block : ℕ → List ℕ → List (List ℕ) → Outcome (List (List ℕ))
write_block i block memory = if ltb i (length memory) then done (set memory i block) else panic

abbrev pub data_independent : Segment → Bool
data_independent seg = (seg.pass == 0) && ltb seg.slice 2

abbrev pub previous : Segment → ℕ → Outcome ℕ
previous seg abs_idx =
    if abs_idx == seg.lane * seg.lane_len
    then sub (seg.lane * seg.lane_len + seg.lane_len) 1
    else sub abs_idx 1

-- One block of a segment.
unfoldable pub fill_block : Segment → List ℕ → ℕ → List (List ℕ) → Outcome (List (List ℕ))
fill_block seg pseudo_rands s memory =
    let abs_idx = seg.lane * seg.lane_len + seg.slice * seg.segment_len + s in
    let filled = (do
      prev_idx ← previous seg abs_idx
      prev ← unwrap (get_elem? memory prev_idx)
      pseudo_rand ←
          if data_independent seg then unwrap (get_elem? pseudo_rands s) else done (get_or prev 0 0)
      ref_idx ← index_alpha pseudo_rand seg abs_idx
      refb ← unwrap (get_elem? memory ref_idx)
      write_block abs_idx (compress_blocks prev refb) memory) in
    if (seg.pass == 0) && ltb abs_idx (seg.lane * seg.lane_len + 2) then done memory else filled

unfoldable pub fill_segment : Segment → List (List ℕ) → Outcome (List (List ℕ))
fill_segment seg =
    let pseudo_rands =
      if data_independent seg then compute_pseudo_rands seg.segment_len 0 seg else [] in
    for seg.segment_len 0 (fill_block seg pseudo_rands)

-- The number of blocks in a lane.
abbrev pub lane_length : ℕ → ℕ → ℕ
lane_length m_cost p = m_cost / (4 * p) * (4 * p) / p

abbrev pub h0_input : List ℕ → List ℕ → ℕ → ℕ → ℕ → List ℕ
h0_input password salt m_cost t_cost p_cost =
    le_bytes 4 p_cost
    ++ le_bytes 4 hash_len
    ++ le_bytes 4 m_cost
    ++ le_bytes 4 t_cost
    ++ le_bytes 4 argon2_version
    ++ le_bytes 4 argon2_type_id
    ++ le_bytes 4 (length password % 2 ^ 32)
    ++ password
    ++ le_bytes 4 (length salt % 2 ^ 32)
    ++ salt
    ++ le_bytes 4 0
    ++ le_bytes 4 0

unfoldable pub compute_h0 : List ℕ → List ℕ → ℕ → ℕ → ℕ → Outcome (List ℕ)
compute_h0 password salt m_cost t_cost p_cost =
    blake2b_512 (h0_input password salt m_cost t_cost p_cost)

abbrev pub bytes_to_block : List ℕ → Outcome (List ℕ)
bytes_to_block bytes =
    if ltb (length bytes) (8 * block_words) then panic else done (words_of block_words bytes)

unfoldable pub h_prime_1024 : List ℕ → ℕ → ℕ → Outcome (List ℕ)
h_prime_1024 h0 block_idx lane =
    h_prime (h0 ++ le_bytes 4 block_idx ++ le_bytes 4 (lane % 2 ^ 32)) 1024 >>= bytes_to_block

-- The first two blocks of a lane.
unfoldable pub init_lane : List ℕ → ℕ → ℕ → List (List ℕ) → Outcome (List (List ℕ))
init_lane h0 lane_len l memory = do
  block0 ← h_prime_1024 h0 0 l
  block1 ← h_prime_1024 h0 1 l
  memory ← write_block (l * lane_len) block0 memory
  write_block (l * lane_len + 1) block1 memory

unfoldable pub fill_memory : ℕ → ℕ → ℕ → List (List ℕ) → Outcome (List (List ℕ))
fill_memory lane_len p t_cost = for t_cost 0 (λ pass. for 4 0 (λ slice. for p 0 (λ lane.
    fill_segment (record {
      pass = pass;
      lane = lane;
      slice = slice;
      lane_len = lane_len;
      segment_len = lane_len / 4;
      p = p;
      t_cost = t_cost;
    }))))

-- The last blocks of all lanes together.
unfoldable pub final_block : ℕ → ℕ → List (List ℕ) → Outcome (List ℕ)
final_block lane_len p memory =
    for p 0
      (λ l block. do
        end ← sub lane_len 1
        last ← unwrap (get_elem? memory (l * lane_len + end))
        done (xor_blocks block last))
      (replicate block_words 0)

-- The memory is filled, and its last blocks are put together.
abbrev pub filled_block : List ℕ → List ℕ → ℕ → ℕ → ℕ → Outcome (List ℕ)
filled_block password salt m_cost t_cost p = do
  h0 ← compute_h0 password salt m_cost t_cost p
  memory ←
      for p 0 (init_lane h0 (lane_length m_cost p))
        (replicate (m_cost / (4 * p) * (4 * p)) (replicate block_words 0))
  memory ← fill_memory (lane_length m_cost p) p t_cost memory
  final_block (lane_length m_cost p) p memory

abbrev pub exact_digest : List ℕ → Outcome (List ℕ)
exact_digest digest = if ltb (length digest) hash_len then panic else done (take hash_len digest)

-- The division by `4 * p` panics when there is no lane.
unfoldable pub argon2id_raw : List ℕ → List ℕ → ℕ → ℕ → ℕ → Outcome (List ℕ)
argon2id_raw password salt m_cost t_cost p =
    let filled = (do
      block ← filled_block password salt m_cost t_cost p
      digest ← h_prime (all_bytes block) hash_len
      exact_digest digest) in
    if p == 0 then panic else filled
