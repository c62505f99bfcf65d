-- ===== src/Blake.antt =====
-- BLAKE2b and the variable-length hash H' of Argon2 (crap_os/src/crypto/hash/blake2b.rs). A byte and a
-- word are numbers, an array is the list of its entries.
pub mod Absorb
pub mod Lengths
use crap_os.Base.{
  ℕ, zero, suc, ◌+◌, ◌-◌, ◌*◌, ◌/◌, ◌%◌, ◌^◌, Bool, true, false, ◌&&◌, ◌||◌, Option, none, some,
  List, [], ◌∷◌, ◌++◌, length, get_or, set, replicate, ◌==◌, ltb, leb, if◌then◌else◌, bit_or,
  bit_xor,
}
use crap_os.Tasks.Outcome.{Outcome, done, panic, no_fuel, ◌>>=◌}

abbrev pub iv : List ℕ
iv =
    0x6a09e667f3bcc908 ∷ 0xbb67ae8584caa73b ∷ 0x3c6ef372fe94f82b ∷ 0xa54ff53a5f1d36f1
    ∷ 0x510e527fade682d1 ∷ 0x9b05688c2b3e6c1f ∷ 0x1f83d9abfb41bd6b ∷ 0x5be0cd19137e2179 ∷ []

-- The permutations of the twelve rounds.
abbrev pub sigma : List (List ℕ)
sigma =
    (0 ∷ 1 ∷ 2 ∷ 3 ∷ 4 ∷ 5 ∷ 6 ∷ 7 ∷ 8 ∷ 9 ∷ 10 ∷ 11 ∷ 12 ∷ 13 ∷ 14 ∷ 15 ∷ [])
    ∷ (14 ∷ 10 ∷ 4 ∷ 8 ∷ 9 ∷ 15 ∷ 13 ∷ 6 ∷ 1 ∷ 12 ∷ 0 ∷ 2 ∷ 11 ∷ 7 ∷ 5 ∷ 3 ∷ [])
    ∷ (11 ∷ 8 ∷ 12 ∷ 0 ∷ 5 ∷ 2 ∷ 15 ∷ 13 ∷ 10 ∷ 14 ∷ 3 ∷ 6 ∷ 7 ∷ 1 ∷ 9 ∷ 4 ∷ [])
    ∷ (7 ∷ 9 ∷ 3 ∷ 1 ∷ 13 ∷ 12 ∷ 11 ∷ 14 ∷ 2 ∷ 6 ∷ 5 ∷ 10 ∷ 4 ∷ 0 ∷ 15 ∷ 8 ∷ [])
    ∷ (9 ∷ 0 ∷ 5 ∷ 7 ∷ 2 ∷ 4 ∷ 10 ∷ 15 ∷ 14 ∷ 1 ∷ 11 ∷ 12 ∷ 6 ∷ 8 ∷ 3 ∷ 13 ∷ [])
    ∷ (2 ∷ 12 ∷ 6 ∷ 10 ∷ 0 ∷ 11 ∷ 8 ∷ 3 ∷ 4 ∷ 13 ∷ 7 ∷ 5 ∷ 15 ∷ 14 ∷ 1 ∷ 9 ∷ [])
    ∷ (12 ∷ 5 ∷ 1 ∷ 15 ∷ 14 ∷ 13 ∷ 4 ∷ 10 ∷ 0 ∷ 7 ∷ 6 ∷ 3 ∷ 9 ∷ 2 ∷ 8 ∷ 11 ∷ [])
    ∷ (13 ∷ 11 ∷ 7 ∷ 14 ∷ 12 ∷ 1 ∷ 3 ∷ 9 ∷ 5 ∷ 0 ∷ 15 ∷ 4 ∷ 8 ∷ 6 ∷ 2 ∷ 10 ∷ [])
    ∷ (6 ∷ 15 ∷ 14 ∷ 9 ∷ 11 ∷ 3 ∷ 0 ∷ 8 ∷ 12 ∷ 2 ∷ 13 ∷ 7 ∷ 1 ∷ 4 ∷ 10 ∷ 5 ∷ [])
    ∷ (10 ∷ 2 ∷ 8 ∷ 4 ∷ 7 ∷ 6 ∷ 1 ∷ 5 ∷ 15 ∷ 11 ∷ 9 ∷ 14 ∷ 3 ∷ 12 ∷ 13 ∷ 0 ∷ [])
    ∷ (0 ∷ 1 ∷ 2 ∷ 3 ∷ 4 ∷ 5 ∷ 6 ∷ 7 ∷ 8 ∷ 9 ∷ 10 ∷ 11 ∷ 12 ∷ 13 ∷ 14 ∷ 15 ∷ [])
    ∷ (14 ∷ 10 ∷ 4 ∷ 8 ∷ 9 ∷ 15 ∷ 13 ∷ 6 ∷ 1 ∷ 12 ∷ 0 ∷ 2 ∷ 11 ∷ 7 ∷ 5 ∷ 3 ∷ [])
    ∷ []

abbrev pub max_key_len : ℕ
max_key_len = 64

abbrev pub max_out_len : ℕ
max_out_len = 64

abbrev pub block_size : ℕ
block_size = 128

pub record Blake2bState : Type 0 where
  pub h : List ℕ
  pub t0 : ℕ
  pub t1 : ℕ
  pub f0 : ℕ
  pub f1 : ℕ
  pub buf : List ℕ
  pub buf_len : ℕ
  pub out_len : ℕ

abbrev pub wrapping_add : ℕ → ℕ → ℕ
wrapping_add x y = (x + y) % 2 ^ 64

abbrev pub rotate_right : ℕ → ℕ → ℕ
rotate_right x n = x / 2 ^ n + x % 2 ^ n * 2 ^ (64 - n)

-- The mixing function, on the working vector.
unfoldable pub g : List ℕ → ℕ → ℕ → ℕ → ℕ → ℕ → ℕ → List ℕ
g v a b c d x y =
    let v1 = set v a (wrapping_add (wrapping_add (get_or v a 0) (get_or v b 0)) x) in
    let v2 = set v1 d (rotate_right (bit_xor (get_or v1 d 0) (get_or v1 a 0)) 32) in
    let v3 = set v2 c (wrapping_add (get_or v2 c 0) (get_or v2 d 0)) in
    let v4 = set v3 b (rotate_right (bit_xor (get_or v3 b 0) (get_or v3 c 0)) 24) in
    let v5 = set v4 a (wrapping_add (wrapping_add (get_or v4 a 0) (get_or v4 b 0)) y) in
    let v6 = set v5 d (rotate_right (bit_xor (get_or v5 d 0) (get_or v5 a 0)) 16) in
    let v7 = set v6 c (wrapping_add (get_or v6 c 0) (get_or v6 d 0)) in
    set v7 b (rotate_right (bit_xor (get_or v7 b 0) (get_or v7 c 0)) 63)

-- The words of a buffer, eight bytes each, the lowest byte first.
unfoldable pub words_of : ℕ → List ℕ → List ℕ
words_of zero bytes = []
words_of (suc n) (b0 ∷ b1 ∷ b2 ∷ b3 ∷ b4 ∷ b5 ∷ b6 ∷ b7 ∷ bytes) =
    (b0
      + 2 ^ 8 * b1
      + 2 ^ 16 * b2
      + 2 ^ 24 * b3
      + 2 ^ 32 * b4
      + 2 ^ 40 * b5
      + 2 ^ 48 * b6
      + 2 ^ 56 * b7)
    ∷ words_of n bytes
words_of (suc n) _ = []

-- The word of the message that a permutation picks.
abbrev picked : List ℕ → List ℕ → ℕ → ℕ
picked m s i = get_or m (get_or s i 0) 0

-- One round, with its permutation.
unfoldable pub round : List ℕ → List ℕ → List ℕ → List ℕ
round m s v =
    let v1 = g v 0 4 8 12 (picked m s 0) (picked m s 1) in
    let v2 = g v1 1 5 9 13 (picked m s 2) (picked m s 3) in
    let v3 = g v2 2 6 10 14 (picked m s 4) (picked m s 5) in
    let v4 = g v3 3 7 11 15 (picked m s 6) (picked m s 7) in
    let v5 = g v4 0 5 10 15 (picked m s 8) (picked m s 9) in
    let v6 = g v5 1 6 11 12 (picked m s 10) (picked m s 11) in
    let v7 = g v6 2 7 8 13 (picked m s 12) (picked m s 13) in
    g v7 3 4 9 14 (picked m s 14) (picked m s 15)

unfoldable pub rounds : List ℕ → List (List ℕ) → List ℕ → List ℕ
rounds m [] v = v
rounds m (s ∷ ss) v = rounds m ss (round m s v)

-- The working vector goes back into the chaining value, from the index `i` on.
unfoldable pub fold_back : ℕ → List ℕ → List ℕ → List ℕ
fold_back i v [] = []
fold_back i v (x ∷ xs) =
    bit_xor x (bit_xor (get_or v i 0) (get_or v (i + 8) 0)) ∷ fold_back (i + 1) v xs

abbrev pub working_vector : Blake2bState → List ℕ
working_vector s =
    let v = s.h ++ iv in
    let v1 = set v 12 (bit_xor (get_or v 12 0) s.t0) in
    let v2 = set v1 13 (bit_xor (get_or v1 13 0) s.t1) in
    let v3 = set v2 14 (bit_xor (get_or v2 14 0) s.f0) in set v3 15 (bit_xor (get_or v3 15 0) s.f1)

unfoldable pub compress : Blake2bState → Blake2bState
compress s = record s { h = fold_back 0 (rounds (words_of 16 s.buf) sigma (working_vector s)) s.h }

unfoldable pub increment_counter : ℕ → Blake2bState → Blake2bState
increment_counter n s =
    let t0 = wrapping_add s.t0 n in
    record s { t0 = t0; t1 = if ltb t0 n then wrapping_add s.t1 1 else s.t1 }

-- `copy_from_slice` into the buffer from an index on.
unfoldable pub copy_from_slice : List ℕ → ℕ → List ℕ → List ℕ
copy_from_slice [] i buf = buf
copy_from_slice (x ∷ xs) i buf = copy_from_slice xs (i + 1) (set buf i x)

abbrev pub take : ℕ → List ℕ → List ℕ
take zero xs = []
take (suc n) [] = []
take (suc n) (x ∷ xs) = x ∷ take n xs

abbrev pub drop : ℕ → List ℕ → List ℕ
drop zero xs = xs
drop (suc n) [] = []
drop (suc n) (x ∷ xs) = drop n xs

abbrev pub is_empty : List ℕ → Bool
is_empty [] = true
is_empty (x ∷ xs) = false

-- A full buffer is compressed.
unfoldable pub make_room : Blake2bState → Blake2bState
make_room s =
    if s.buf_len == block_size
    then record (compress (increment_counter block_size s)) { buf_len = 0 }
    else s

-- As much input as fits goes into the buffer.
abbrev pub fill : List ℕ → Blake2bState → Blake2bState
fill chunk s = record s {
  buf = copy_from_slice chunk s.buf_len s.buf;
  buf_len = s.buf_len + length chunk;
}

-- The loop of `update`, on the input that is left.
unfoldable pub update_loop : ℕ → List ℕ → Blake2bState → Outcome Blake2bState
update_loop zero input s = no_fuel
update_loop (suc fuel) input s =
    let room = make_room s in
    let space = block_size - room.buf_len in
    let rest = update_loop fuel (drop space input) (fill (take space input) room) in
    if is_empty input then done s else rest

abbrev pub update_state : List ℕ → Blake2bState → Outcome Blake2bState
update_state input s = update_loop (length input + 1) input s

abbrev pub parameter_word : ℕ → ℕ → ℕ
parameter_word out_len key_len =
    bit_or (bit_or (bit_or out_len (key_len * 2 ^ 8 % 2 ^ 64)) (2 ^ 16)) (2 ^ 24)

abbrev pub key_length : Option (List ℕ) → ℕ
key_length none = 0
key_length (some k) = length k

-- The state before any input.
abbrev pub initial : ℕ → ℕ → Blake2bState
initial out_len p0 = record {
  h = set iv 0 (bit_xor (get_or iv 0 0) p0);
  t0 = 0;
  t1 = 0;
  f0 = 0;
  f1 = 0;
  buf = replicate block_size 0;
  buf_len = 0;
  out_len = out_len;
}

-- A key is the first block, with zeros behind it.
unfoldable pub new_state : ℕ → Option (List ℕ) → Outcome Blake2bState
new_state out_len key =
    let state = initial out_len (parameter_word out_len (key_length key)) in
    elim key [
      | none ↦ done state
      | some k ↦
          if leb (length k) block_size
          then update_state (copy_from_slice k 0 (replicate block_size 0)) state
          else panic
    ]

-- The bytes of a word, the lowest first, and those of a list of words.
unfoldable pub le_bytes : ℕ → ℕ → List ℕ
le_bytes zero w = []
le_bytes (suc n) w = w % 256 ∷ le_bytes n (w / 256)

unfoldable pub all_bytes : List ℕ → List ℕ
all_bytes [] = []
all_bytes (w ∷ ws) = le_bytes 8 w ++ all_bytes ws

-- The rest of the buffer is zeros, and the flag of the last block is set.
unfoldable pub last_block : Blake2bState → Blake2bState
last_block s =
    let counted = increment_counter s.buf_len s in
    let padded = copy_from_slice (replicate (block_size - s.buf_len) 0) s.buf_len counted.buf in
    compress (record counted { buf = padded; f0 = 2 ^ 64 - 1 })

unfoldable pub finalize : Blake2bState → Outcome (List ℕ)
finalize s =
    let out = take s.out_len (all_bytes (last_block s).h) in
    if leb s.out_len 64 then done out else panic

-- One hash of a list of inputs, one call of `update` for each.
unfoldable pub update_each : List (List ℕ) → Blake2bState → Outcome Blake2bState
update_each [] s = done s
update_each (x ∷ xs) s = update_state x s >>= update_each xs

abbrev pub hash : List (List ℕ) → ℕ → Option (List ℕ) → Outcome (List ℕ)
hash inputs out_len key = new_state out_len key >>= update_each inputs >>= finalize

abbrev pub refuses_key : Option (List ℕ) → Bool
refuses_key none = false
refuses_key (some k) = (length k == 0) || ltb max_key_len (length k)

unfoldable pub blake2b : List ℕ → ℕ → Option (List ℕ) → Outcome (Option (List ℕ))
blake2b input out_len key =
    if (out_len == 0) || ltb max_out_len out_len
    then done none
    else if refuses_key key
    then done none
    else (hash (input ∷ []) out_len key >>= λ out. done (some out))

-- `copy_from_slice` into an array of a length, which has to be the same.
abbrev exact : ℕ → Outcome (List ℕ) → Outcome (List ℕ)
exact n result = result >>= λ out. if length out == n then done out else panic

unfoldable pub blake2b_512 : List ℕ → Outcome (List ℕ)
blake2b_512 input = exact 64 (hash (input ∷ []) 64 none)

unfoldable pub blake2b_256 : List ℕ → Outcome (List ℕ)
blake2b_256 input = exact 32 (hash (input ∷ []) 32 none)

unfoldable pub blake2b_mac_512 : List ℕ → List ℕ → Outcome (Option (List ℕ))
blake2b_mac_512 input key =
    if refuses_key (some key)
    then done none
    else (exact 64 (hash (input ∷ []) 64 (some key)) >>= λ out. done (some out))

unfoldable pub blake2b_mac_256 : List ℕ → List ℕ → Outcome (Option (List ℕ))
blake2b_mac_256 input key =
    if refuses_key (some key)
    then done none
    else (exact 32 (hash (input ∷ []) 32 (some key)) >>= λ out. done (some out))

-- The chain of H': the rounds that are left, the last hash and the output so far.
unfoldable pub chain : ℕ → List ℕ → List ℕ → Outcome (List ℕ × List ℕ)
chain zero a out = done (a, out)
chain (suc n) a out = hash (a ∷ []) 64 none >>= λ a'. chain n a' (out ++ take 32 a')

unfoldable pub h_prime : List ℕ → ℕ → Outcome (List ℕ)
h_prime input tau =
    let tau_bytes = le_bytes 4 (tau % 2 ^ 32) in
    let short = hash (tau_bytes ∷ input ∷ []) (if tau == 0 then 1 else tau) none in
    let r = (tau + 31) / 32 - 2 in
    let first? = hash (tau_bytes ∷ input ∷ []) 64 none in
    let chained? = first? >>= λ a. chain (r - 1) a (take 32 a) in
    let long =
      chained? >>= λ c. (hash (c.0 ∷ []) (tau - 32 * r) none >>= λ last. done (c.1 ++ last)) in
    if leb tau 64 then short else long
