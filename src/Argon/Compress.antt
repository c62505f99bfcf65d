-- ===== src/Argon/Compress.antt =====
-- The compression of two blocks of Argon2 (crap_os/src/crypto/hash/argon2.rs): the permutation of
-- BLAKE2 with multiplication on its rows and columns.
use crap_os.Base.{ℕ, zero, suc, ◌+◌, ◌*◌, ◌%◌, ◌^◌, List, [], ◌∷◌, get_or, set, bit_xor}
use crap_os.Blake.{rotate_right, wrapping_add}

abbrev pub trunc32 : ℕ → ℕ
trunc32 x = x % 2 ^ 32

-- `a + b + 2 * trunc32(a) * trunc32(b)`, all wrapping.
abbrev pub mul_add : ℕ → ℕ → ℕ
mul_add a b = wrapping_add (wrapping_add a b) (2 * (trunc32 a * trunc32 b % 2 ^ 64) % 2 ^ 64)

unfoldable pub g_mix : ℕ → ℕ → ℕ → ℕ → List ℕ → List ℕ
g_mix a b c d v =
    let v1 = set v a (mul_add (get_or v a 0) (get_or v b 0)) in
    let v2 = set v1 d (rotate_right (bit_xor (get_or v1 d 0) (get_or v1 a 0)) 32) in
    let v3 = set v2 c (mul_add (get_or v2 c 0) (get_or v2 d 0)) in
    let v4 = set v3 b (rotate_right (bit_xor (get_or v3 b 0) (get_or v3 c 0)) 24) in
    let v5 = set v4 a (mul_add (get_or v4 a 0) (get_or v4 b 0)) in
    let v6 = set v5 d (rotate_right (bit_xor (get_or v5 d 0) (get_or v5 a 0)) 16) in
    let v7 = set v6 c (mul_add (get_or v6 c 0) (get_or v6 d 0)) in
    set v7 b (rotate_right (bit_xor (get_or v7 b 0) (get_or v7 c 0)) 63)

-- The sixteen indices are a function of their position.
unfoldable pub p_col : (ℕ → ℕ) → List ℕ → List ℕ
p_col at v =
    let v1 = g_mix (at 0) (at 4) (at 8) (at 12) v in
    let v2 = g_mix (at 1) (at 5) (at 9) (at 13) v1 in
    let v3 = g_mix (at 2) (at 6) (at 10) (at 14) v2 in
    let v4 = g_mix (at 3) (at 7) (at 11) (at 15) v3 in
    let v5 = g_mix (at 0) (at 5) (at 10) (at 15) v4 in
    let v6 = g_mix (at 1) (at 6) (at 11) (at 12) v5 in
    let v7 = g_mix (at 2) (at 7) (at 8) (at 13) v6 in g_mix (at 3) (at 4) (at 9) (at 14) v7

-- The rows and the columns from an index on: the rounds that are left come first.
unfoldable pub rows : ℕ → ℕ → List ℕ → List ℕ
rows zero row z = z
rows (suc rounds) row z = rows rounds (row + 1) (p_col (λ k. row * 16 + k) z)

unfoldable pub columns : ℕ → ℕ → List ℕ → List ℕ
columns zero col z = z
columns (suc rounds) col z = columns rounds (col + 1) (p_col (λ k. col + 8 * k) z)

abbrev pub xor_blocks : List ℕ → List ℕ → List ℕ
xor_blocks [] ys = []
xor_blocks (x ∷ xs) [] = []
xor_blocks (x ∷ xs) (y ∷ ys) = bit_xor x y ∷ xor_blocks xs ys

unfoldable pub compress_blocks : List ℕ → List ℕ → List ℕ
compress_blocks x y = let r = xor_blocks x y in xor_blocks (columns 8 0 (rows 8 0 r)) r
